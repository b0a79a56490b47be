-- ===== src/Audit/Intents.antt =====
-- src/audit/store.rs: an intent is recorded before an action runs, and its outcome after. What `to_string` of
-- serde_json makes of a value is a parameter; each operation reads the clock as `now`, in milliseconds.
pub mod Recorded
use rust_panel.Accounts.Tables.{change}
use rust_panel.Prelude.Map.{or_else}
use rust_panel.Prelude.Int.{ℤ}
use rust_panel.Audit.Mask.{Value, mask_value}
use rust_panel.Prelude.{
  [], ◌∷◌, none, some, Option, Text, ℕ, if◌then◌else◌, ◌+◌, any, ◌==◌, text_eq,
}
use rust_panel.Db.{◌>>=◌, ◌>>◌, Db, acquire, constrained, transaction, update, query, pure}
use rust_panel.Audit.Tables.{
  Outcome, Status, Intent, Event, Delivery, pending, executed, failed, rejected, unknown, success,
  failure, rejection, timeout, IntentHandle, IntentSpec, AuditTables, AuditError, pool_failed,
  transaction_failed, unavailable,
}
use rust_panel.Prelude.{codes, ◌++◌, map}

abbrev pub serialize : (Value → Option Text) → Value → Text
serialize to_string v = or_else (to_string (mask_value v)) (codes "{}")

abbrev pub unique_operation : Text → AuditTables → Option Text
unique_operation op t =
    if any (λ i. text_eq i.operation_id op) t.intents
    then some (codes "UNIQUE constraint failed: audit_intents.operation_id")
    else none

abbrev pub new_intent : IntentSpec → Text → ℕ → ℕ → Intent
new_intent spec params now id = record {
  id = id;
  operation_id = spec.operation_id;
  actor_id = spec.actor_id;
  request_id = spec.request_id;
  action = spec.action;
  resource = spec.resource;
  params_masked = params;
  ip = spec.ip;
  status = pending;
  created_at = now;
}

abbrev pub insert_intent : IntentSpec → Text → ℕ → AuditTables → AuditTables
insert_intent spec params now t = record t {
  intents = t.intents ++ new_intent spec params now (t.intent_seq + 1) ∷ [];
  intent_seq = t.intent_seq + 1;
  last_insert_rowid = t.intent_seq + 1;
}

unfoldable pub begin_intent_conn :
    (Value → Option Text) → ℕ → IntentSpec → Db AuditTables AuditError IntentHandle
begin_intent_conn to_string now spec = do
  constrained (λ m. unavailable (codes "failed to persist audit intent: " ++ m))
      (unique_operation spec.operation_id)
      (λ t. (tt, insert_intent spec (serialize to_string spec.params) now t))
  id ← query (λ m. unavailable (codes "failed to read intent id: " ++ m)) (λ t. t.last_insert_rowid)
  pure (record { id = id; operation_id = spec.operation_id })

unfoldable pub begin_intent :
    (Value → Option Text) → ℕ → IntentSpec → Db AuditTables AuditError IntentHandle
begin_intent to_string now spec = do acquire pool_failed; begin_intent_conn to_string now spec

-- the status that an outcome leaves
abbrev pub status_of : Outcome → Status
status_of success = executed
status_of failure = failed
status_of timeout = failed
status_of rejection = rejected

abbrev pub set_status : ℕ → Status → AuditTables → AuditTables
set_status id status t = record t {
  intents = map (change (λ i. i.id == id) (λ i. record i { status = status })) t.intents;
}

-- `intent_id` references an intent
abbrev pub intent_exists : ℕ → AuditTables → Option Text
intent_exists id t =
    if any (λ i. i.id == id) t.intents then none else some (codes "FOREIGN KEY constraint failed")

-- the arguments of `complete_intent` that describe the outcome
pub record Completion : Type 0 where
  pub outcome : Outcome
  pub exit_code : Option ℤ
  pub detail : Value
  pub duration_ms : Option ℕ

abbrev pub new_event : IntentHandle → Completion → Text → ℕ → ℕ → Event
new_event intent c detail now id = record {
  id = id;
  intent_id = intent.id;
  operation_id = intent.operation_id;
  outcome = c.outcome;
  exit_code = c.exit_code;
  detail_masked = detail;
  duration_ms = c.duration_ms;
  created_at = now;
}

abbrev pub insert_event : IntentHandle → Completion → Text → ℕ → AuditTables → AuditTables
insert_event intent c detail now t = record t {
  events = t.events ++ new_event intent c detail now (t.event_seq + 1) ∷ [];
  event_seq = t.event_seq + 1;
  last_insert_rowid = t.event_seq + 1;
}

-- `event_id` references an event
abbrev pub event_exists : ℕ → AuditTables → Option Text
event_exists id t =
    if any (λ e. e.id == id) t.events then none else some (codes "FOREIGN KEY constraint failed")

abbrev pub new_delivery : ℕ → ℕ → ℕ → Delivery
new_delivery event_id now id = record {
  id = id;
  event_id = event_id;
  attempts = 0;
  next_retry_at = none;
  delivered_at = none;
  last_error = none;
  created_at = now;
}

abbrev pub insert_delivery : ℕ → ℕ → AuditTables → AuditTables
insert_delivery event_id now t = record t {
  outbox = t.outbox ++ new_delivery event_id now (t.outbox_seq + 1) ∷ [];
  outbox_seq = t.outbox_seq + 1;
  last_insert_rowid = t.outbox_seq + 1;
}

-- the body of the transaction of `complete_intent_conn`
unfoldable pub complete_body :
    (Value → Option Text) → ℕ → IntentHandle → Completion → Db AuditTables AuditError (Unit {0})
complete_body to_string now intent c = do
  update (λ m. unavailable (codes "failed to update intent: " ++ m))
      (λ t. (tt, set_status intent.id (status_of c.outcome) t))
  constrained (λ m. unavailable (codes "failed to persist audit event: " ++ m))
      (intent_exists intent.id)
      (λ t. (tt, insert_event intent c (serialize to_string c.detail) now t))
  event_id ←
      query (λ m. unavailable (codes "failed to read event id: " ++ m)) (λ t. t.last_insert_rowid)
  constrained (λ m. unavailable (codes "failed to enqueue audit outbox: " ++ m))
      (event_exists event_id) (λ t. (tt, insert_delivery event_id now t))

unfoldable pub complete_intent_conn :
    (Value → Option Text) → ℕ → IntentHandle → Completion → Db AuditTables AuditError (Unit {0})
complete_intent_conn to_string now intent c =
    transaction transaction_failed (complete_body to_string now intent c)

unfoldable pub complete_intent :
    (Value → Option Text) → ℕ → IntentHandle → Completion → Db AuditTables AuditError (Unit {0})
complete_intent to_string now intent c = do
  acquire pool_failed
  complete_intent_conn to_string now intent c
