-- ===== src/Audit/Upkeep.antt =====
-- src/audit/store.rs: stale intents, and the purge of old rows.
pub mod Kept
use rust_panel.Accounts.Tables.{change}
use rust_panel.Prelude.{
  none, some, ℕ, Bool, List, Option, any, ltb, retain, Text, not, ◌&&◌, if◌then◌else◌, ◌==◌, count,
  ◌-◌, ◌*◌, ◌+◌,
}
use rust_panel.Db.{◌>>=◌, ◌>>◌, Db, acquire, update, transaction, constrained, pure}
use rust_panel.Audit.Tables.{
  Intent, Event, Delivery, unknown, AuditTables, AuditError, is_pending, pool_failed, unavailable,
  transaction_failed,
}
use rust_panel.Prelude.{codes, ◌++◌, map}

abbrev pub is_stale : ℕ → Intent → Bool
is_stale cutoff i = is_pending i.status && ltb i.created_at cutoff

-- the clock reading less the age; times before 1970 do not occur
unfoldable pub reconcile_stale_intents : ℕ → ℕ → Db AuditTables AuditError ℕ
reconcile_stale_intents now stale_after_secs = do
  acquire pool_failed
  let cutoff = now - stale_after_secs * 1000
  update (λ m. unavailable (codes "failed to reconcile intents: " ++ m))
      (λ t. (
        count (is_stale cutoff) t.intents,
        record t {
          intents = map (change (is_stale cutoff) (λ i. record i { status = unknown })) t.intents;
        },
      ))

abbrev pub is_old_event : ℕ → Event → Bool
is_old_event cutoff e = ltb e.created_at cutoff

-- `event_id IN (SELECT id FROM audit_events WHERE created_at < cutoff)`
abbrev pub is_of_old_event : ℕ → List Event → Delivery → Bool
is_of_old_event cutoff es o = any (λ e. is_old_event cutoff e && e.id == o.event_id) es

abbrev pub is_old_intent : ℕ → List Event → Intent → Bool
is_old_intent cutoff es i = ltb i.created_at cutoff && not (any (λ e. e.intent_id == i.id) es)

-- an event that the outbox still refers to cannot be deleted
abbrev pub events_referenced : ℕ → AuditTables → Option Text
events_referenced cutoff t =
    if any (is_of_old_event cutoff t.events) t.outbox
    then some (codes "FOREIGN KEY constraint failed")
    else none

abbrev pub purge_outbox : ℕ → AuditTables → AuditTables
purge_outbox cutoff t = record t {
  outbox = retain (λ o. not (is_of_old_event cutoff t.events o)) t.outbox;
}

abbrev pub purge_events : ℕ → AuditTables → AuditTables
purge_events cutoff t = record t { events = retain (λ e. not (is_old_event cutoff e)) t.events }

-- the `NOT EXISTS` of the statement spares each intent that an event refers to
abbrev pub purge_intents : ℕ → AuditTables → AuditTables
purge_intents cutoff t = record t {
  intents = retain (λ i. not (is_old_intent cutoff t.events i)) t.intents;
}

-- the body of the transaction of `purge_audit`
unfoldable pub purge_body : ℕ → Db AuditTables AuditError ℕ
purge_body cutoff = do
  outbox ←
      update (λ m. unavailable (codes "failed to purge outbox: " ++ m))
        (λ t. (count (is_of_old_event cutoff t.events) t.outbox, purge_outbox cutoff t))
  events ←
      constrained (λ m. unavailable (codes "failed to purge events: " ++ m))
        (events_referenced cutoff)
        (λ t. (count (is_old_event cutoff) t.events, purge_events cutoff t))
  intents ←
      update (λ m. unavailable (codes "failed to purge intents: " ++ m))
        (λ t. (count (is_old_intent cutoff t.events) t.intents, purge_intents cutoff t))
  pure (outbox + events + intents)

unfoldable pub purge_audit : ℕ → ℕ → Db AuditTables AuditError ℕ
purge_audit now keep_days = do
  acquire pool_failed
  transaction transaction_failed (purge_body (now - keep_days * 86400000))
