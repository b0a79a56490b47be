-- ===== src/Audit/Outbox/Refines.antt =====
-- The operations of the store as the operations of the queue.
use rust_panel.Prelude.{drop, append-take-drop, subst}
use rust_panel.Audit.Outbox.Queue.{
  queue_of, delivered, due_rows, dequeue, deliver_rows-quiet, delivered-queue, join_events-distinct,
}
use rust_panel.Audit.Ids.{distinct, distinct-retain}
use rust_panel.Audit.Integrity.{IsSound}
use rust_panel.Audit.Tables.{AuditTables, Delivery, OutboxRow}
use rust_panel.Audit.Outbox.{
  deliver_pending_outbox, AuditTables, Delivery, list_pending_outbox, OutboxRow, pending_rows,
  acquire, query, take, is_due,
}
use rust_panel.Prelude.{
  ok, true, retain, ℕ, ◌≡◌, ap, arith, length, take, ◌∙◌, sym, append-take-drop,
}
use rust_panel.Db.{◌>>=◌, ◌>>◌, acquire, reply, query, quiet, tables_after}

pub deliver_pending_outbox-quiet :
    (now limit : ℕ) (t : AuditTables)
    → deliver_pending_outbox now limit (quiet t) ≡ (
      ok (length (take limit (due_rows now t))),
      quiet (delivered now (take limit (due_rows now t)) t),
    )
unfolding deliver_pending_outbox list_pending_outbox pending_rows acquire query ◌>>◌ ◌>>=◌
deliver_pending_outbox-quiet now limit t =
    (deliver_rows-quiet now 0 (take limit (due_rows now t)) t
      ∙ ap (λ n. (ok n, quiet (delivered now (take limit (due_rows now t)) t))) (omega arith))

due_rows-distinct :
    (now : ℕ) (t : AuditTables) → IsSound t → distinct OutboxRow.id (due_rows now t) ≡ true
due_rows-distinct now t h =
    join_events-distinct (retain (is_due now) t.outbox) t.events h.events_distinct
      (distinct-retain Delivery.id (is_due now) t.outbox h.outbox_distinct)

pub deliver_queue :
    (now limit : ℕ) (t : AuditTables)
    → IsSound t
    → queue_of now (delivered now (take limit (due_rows now t)) t) ≡ dequeue limit (queue_of now t)
deliver_queue now limit t h =
    let w = due_rows now t in
    let all_of = append-take-drop limit w in
    let (left, logged) = delivered-queue now (take limit w) (drop limit w) t (sym all_of) (
      subst (λ rows. distinct OutboxRow.id rows ≡ true) (sym all_of) (due_rows-distinct now t h)) in
    cc (left, logged)

-- On sound tables, when every statement is answered, a delivery is a step of the queue: it takes the first rows
-- that are due, at most the limit, in the order of their ids, appends them to the log in that order, leaves the
-- other rows waiting in their order, and answers with the number of rows that it took.
pub deliver_pending_outbox-dequeue :
    (now limit : ℕ) (t : AuditTables)
    → IsSound t
    → (reply (deliver_pending_outbox now limit) (quiet t)
        ≡ ok (length (take limit (due_rows now t))))
      × (queue_of now (tables_after (deliver_pending_outbox now limit) (quiet t))
          ≡ dequeue limit (queue_of now t))
deliver_pending_outbox-dequeue now limit t h =
    let ran = deliver_pending_outbox-quiet now limit t in
    (ap (λ r. r.0) ran, ap (λ r. queue_of now r.1.tables) ran ∙ deliver_queue now limit t h)
