-- ===== src/Audit/Outbox.antt =====
-- src/audit/store.rs: the delivery of the recorded events from the outbox, with retries. The sink is the panel
-- log.
pub mod Queue
pub mod Refines
pub mod Enqueue
pub mod Drained
use rust_panel.Accounts.Tables.{change, is_none}
use rust_panel.Prelude.{
  [], ◌∷◌, none, some, ok, true, List, ℕ, Bool, Text, if◌then◌else◌, take, ◌==◌, retain, ◌&&◌, ◌+◌,
  leb,
}
use rust_panel.Db.{◌>>=◌, ◌>>◌, Db, acquire, pure, query, update}
use rust_panel.Audit.Tables.{
  Event, Delivery, OutboxRow, AuditTables, AuditError, pool_failed, unavailable,
}
use rust_panel.Prelude.{codes, ◌++◌, map}

-- `delivered_at IS NULL AND (next_retry_at IS NULL OR next_retry_at <= now)`
abbrev pub is_due : ℕ → Delivery → Bool
is_due now o = is_none o.delivered_at && elim o.next_retry_at [ none ↦ true | some at ↦ leb at now ]

abbrev pub joined : Delivery → Event → OutboxRow
joined o e = record {
  id = o.id;
  event_id = o.event_id;
  attempts = o.attempts;
  operation_id = e.operation_id;
  outcome = e.outcome;
}

-- the rows of the join of one row of the outbox with the events
unfoldable pub join_event : Delivery → List Event → List OutboxRow
join_event o [] = []
join_event o (e ∷ es) =
    let rest = join_event o es in if e.id == o.event_id then joined o e ∷ rest else rest

unfoldable pub join_events : List Delivery → List Event → List OutboxRow
join_events [] es = []
join_events (o ∷ os) es = join_event o es ++ join_events os es

-- The order by id is that of the list: a row is only added with an id above all others.
unfoldable pub pending_rows : ℕ → ℕ → AuditTables → List OutboxRow
pending_rows now limit t = take limit (join_events (retain (is_due now) t.outbox) t.events)

unfoldable pub list_pending_outbox : ℕ → ℕ → Db AuditTables AuditError (List OutboxRow)
list_pending_outbox now limit = do
  acquire pool_failed
  query (λ m. unavailable (codes "failed to list outbox: " ++ m)) (pending_rows now limit)

abbrev pub set_delivered : ℕ → ℕ → AuditTables → AuditTables
set_delivered now id t = record t {
  outbox =
      map (change (λ o. o.id == id) (λ o. record o { delivered_at = some now; last_error = none }))
        t.outbox;
}

unfoldable pub mark_outbox_delivered : ℕ → ℕ → Db AuditTables AuditError (Unit {0})
mark_outbox_delivered now id = do
  acquire pool_failed
  update (λ m. unavailable (codes "failed to mark outbox delivered: " ++ m))
      (λ t. (tt, set_delivered now id t))

abbrev pub set_retry : ℕ → Text → ℕ → AuditTables → AuditTables
set_retry id error at t = record t {
  outbox =
      map
        (change (λ o. o.id == id)
          (λ o. record o {
            attempts = o.attempts + 1;
            last_error = some error;
            next_retry_at = some at;
          }))
        t.outbox;
}

unfoldable pub mark_outbox_retry : ℕ → Text → ℕ → Db AuditTables AuditError (Unit {0})
mark_outbox_retry id error at = do
  acquire pool_failed
  update (λ m. unavailable (codes "failed to mark outbox retry: " ++ m))
      (λ t. (tt, set_retry id error at t))

-- `log_info!`, which does not fail
unfoldable pub log_delivered : OutboxRow → Db AuditTables AuditError (Unit {0})
log_delivered row c = (
  ok tt,
  record c { tables = record c.tables { delivered_log = c.tables.delivered_log ++ row ∷ [] } },
)

-- the loop of `deliver_pending_outbox`, with the count of rows so far
unfoldable pub deliver_rows : ℕ → List OutboxRow → ℕ → Db AuditTables AuditError ℕ
deliver_rows now [] delivered = pure delivered
deliver_rows now (row ∷ rows) delivered = do
  log_delivered row
  mark_outbox_delivered now row.id
  deliver_rows now rows (delivered + 1)

unfoldable pub deliver_pending_outbox : ℕ → ℕ → Db AuditTables AuditError ℕ
deliver_pending_outbox now limit = do due ← list_pending_outbox now limit; deliver_rows now due 0
