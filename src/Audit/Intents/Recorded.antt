-- ===== src/Audit/Intents/Recorded.antt =====
-- The rows that `begin_intent` and `complete_intent` of src/audit/store.rs leave.
use rust_panel.Db.Whole.{IsWhole, pooled-IsWhole}
use rust_panel.Db.Steps.{connecting, inserting, changing, reading}
use rust_panel.Audit.Ids.{has}
use rust_panel.Db.Ensures.{Ensures, ensures-constrained, ensures-pure, ensures-imp}
use rust_panel.Audit.Tables.{IntentSpec, AuditTables, IntentHandle, Intent}
use rust_panel.Audit.Mask.{Value}
use rust_panel.Audit.Intents.{
  begin_intent, complete_body, complete_intent, AuditTables, Option, begin_intent_conn,
  complete_intent_conn, IntentHandle, Text, ℕ, Completion, insert_intent, any, insert_delivery,
  serialize, Intent, insert_event, text_eq, set_status, status_of,
}
use rust_panel.Prelude.{refl, true, false, Option, Text, ◌≡◌, ℕ, ◌+◌, any, text_eq, arith}
use rust_panel.Db.{Conn}

abbrev pub begun : (Value → Option Text) → ℕ → IntentSpec → AuditTables → AuditTables
begun to_string now spec t = insert_intent spec (serialize to_string spec.params) now t

abbrev pub handle_of : IntentSpec → AuditTables → IntentHandle
handle_of spec t = record { id = t.intent_seq + 1; operation_id = spec.operation_id }

-- A begun intent is a new pending row under the masked parameters, for an operation that had none; the handle
-- names it.
pub begin_intent-begun :
    (to_string : Value → Option Text) (now : ℕ) (spec : IntentSpec) (t : AuditTables)
    → Ensures (begin_intent to_string now spec) t (λ h u.
      (h ≡ handle_of spec t)
      × (u ≡ begun to_string now spec t)
      × (any (λ i. text_eq i.operation_id spec.operation_id) t.intents ≡ false))
unfolding begin_intent begin_intent_conn
begin_intent-begun to_string now spec t =
    connecting _ _
      (inserting _ _ _ _ λ new. reading _ _ _ (ensures-pure _ _ _ (refl, refl, ground arith)))

-- the tables after the outcome of an intent is recorded
abbrev pub recorded :
    (Value → Option Text) → ℕ → IntentHandle → Completion → AuditTables → AuditTables
recorded to_string now intent c t = insert_delivery (t.event_seq + 1) now (
    insert_event intent c (serialize to_string c.detail) now
      (set_status intent.id (status_of c.outcome) t))

pub complete_body-recorded :
    (to_string : Value → Option Text) (now : ℕ) (intent : IntentHandle) (c : Completion)
    (t : AuditTables)
    → Ensures (complete_body to_string now intent c) t (λ _ u.
      (u ≡ recorded to_string now intent c t)
      × (has Intent.id intent.id (set_status intent.id (status_of c.outcome) t).intents ≡ true))
unfolding complete_body
complete_body-recorded to_string now intent c t = changing _ _ _ (
    inserting _ _ _ _
      λ known. reading _ _ _ (ensures-constrained _ _ _ _ _ λ linked. (refl, ground arith)))

-- Whatever statements fail, wherever, an outcome is recorded whole or not at all: on success the status of
-- the intent is set, one event is there and one undelivered row of the outbox for it; on an error the tables are as
-- they were.
pub complete_intent-IsWhole :
    (to_string : Value → Option Text) (now : ℕ) (intent : IntentHandle) (c : Completion)
    (conn : Conn AuditTables)
    → IsWhole conn.tables
        (recorded to_string now intent c conn.tables)
        (complete_intent to_string now intent c conn)
unfolding complete_intent complete_intent_conn
complete_intent-IsWhole to_string now intent c conn =
    pooled-IsWhole _ _ (complete_body to_string now intent c) conn _
      (ensures-imp (λ _ u v. v.0) (complete_body-recorded to_string now intent c conn.tables))
