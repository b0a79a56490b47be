-- ===== src/Audit/Outbox/Queue.antt =====
-- The outbox as a queue of events to deliver: what a completed intent adds at its end, a delivery takes from
-- its front.
use mathlib.Core.List.{append-nil, append_assoc}
use rust_panel.Prelude.{inl, inr, ap, ◌⊎◌, Bool-cases}
use rust_panel.Accounts.Tables.{change}
use rust_panel.Audit.Ids.{has, distinct}
use rust_panel.Audit.Tables.{OutboxRow, AuditTables, Delivery, Event}
use rust_panel.Audit.Outbox.{
  deliver_rows, join_event, join_events, AuditTables, Delivery, log_delivered, Event, is_due,
  mark_outbox_delivered, set_delivered, take, acquire, change, update, joined,
}
use rust_panel.Prelude.{
  refl, [], ◌∷◌, none, some, ok, true, false, List, retain, ℕ, drop, take, ◌≡◌, not, sym, ◌==◌,
  arith, if◌then◌else◌, retain-append, ◌+◌, length, ◌∙◌,
}
use rust_panel.Db.{◌>>=◌, ◌>>◌, acquire, update, quiet}
use rust_panel.Prelude.{map, ◌++◌}

pub record Queue : Type 0 where
  pub waiting : List OutboxRow
  pub log : List OutboxRow

abbrev pub dequeue : ℕ → Queue → Queue
dequeue limit q = record { waiting = drop limit q.waiting; log = q.log ++ take limit q.waiting }

abbrev pub enqueue : OutboxRow → Queue → Queue
enqueue row q = record q { waiting = q.waiting ++ row ∷ [] }

-- the rows of the tables that are due at a time, with their events
abbrev pub due_rows : ℕ → AuditTables → List OutboxRow
due_rows now t = join_events (retain (is_due now) t.outbox) t.events

abbrev pub queue_of : ℕ → AuditTables → Queue
queue_of now t = record { waiting = due_rows now t; log = t.delivered_log }

join_event_ids :
    (n : ℕ) (o : Delivery) (es : List Event)
    → retain (λ r. not (OutboxRow.id r == n)) (join_event o es)
      ≡ (if o.id == n then [] else join_event o es)
unfolding join_event retain
join_event_ids n o [] = ground arith
join_event_ids n o (e ∷ es) = ground (arith, join_event_ids n o es)

-- A row that is marked as delivered leaves the queue.
due_rows-set_delivered :
    (now id : ℕ) (os : List Delivery) (es : List Event)
    → join_events
        (retain (is_due now) (
          map
            (change
              (λ o. o.id == id)
              (λ o. record o { delivered_at = some now; last_error = none }))
            os))
        es
      ≡ retain (λ r. not (OutboxRow.id r == id)) (join_events (retain (is_due now) os) es)
unfolding join_events retain
due_rows-set_delivered now id [] es = refl
due_rows-set_delivered now id (o ∷ os) es = ground (
  arith,
  due_rows-set_delivered now id os es,
  join_event_ids id o es,
  retain-append (λ r. not (OutboxRow.id r == id)) (join_event o es)
      (join_events (retain (is_due now) os) es),
)

-- the tables after the loop has delivered some rows
abbrev pub delivered : ℕ → List OutboxRow → AuditTables → AuditTables
delivered now [] t = t
delivered now (row ∷ rows) t =
    delivered now rows
      (set_delivered now row.id (record t { delivered_log = t.delivered_log ++ row ∷ [] }))

pub deliver_rows-quiet :
    (now n : ℕ) (rows : List OutboxRow) (t : AuditTables)
    → deliver_rows now rows n (quiet t) ≡ (ok (n + length rows), quiet (delivered now rows t))
unfolding deliver_rows log_delivered mark_outbox_delivered acquire update ◌>>◌ ◌>>=◌
deliver_rows-quiet now n [] t = ground arith
deliver_rows-quiet now n (row ∷ rows) t =
    deliver_rows-quiet now (n + 1) rows
      (set_delivered now row.id (record t { delivered_log = t.delivered_log ++ row ∷ [] }))
    ∙ ground arith

retain_absent :
    (n : ℕ) (rows : List OutboxRow)
    → has OutboxRow.id n rows ≡ false
    → retain (λ r. not (OutboxRow.id r == n)) rows ≡ rows
unfolding retain
retain_absent n [] h = refl
retain_absent n (r ∷ rows) h = ground (arith, retain_absent n rows)

pub delivered-queue :
    (now : ℕ) (rows rest : List OutboxRow) (t : AuditTables)
    → due_rows now t ≡ rows ++ rest
    → distinct OutboxRow.id (rows ++ rest) ≡ true
    → (due_rows now (delivered now rows t) ≡ rest)
      × ((delivered now rows t).delivered_log ≡ t.delivered_log ++ rows)
unfolding retain
delivered-queue now [] rest t e d = (e, sym (append-nil t.delivered_log))
delivered-queue now (row ∷ rows) rest t e d =
    let u = set_delivered now row.id (record t { delivered_log = t.delivered_log ++ row ∷ [] }) in
    let (left, logged) =
      delivered-queue now rows rest u
        (due_rows-set_delivered now row.id t.outbox t.events
          ∙ ap (retain (λ r. not (OutboxRow.id r == row.id))) e
          ∙ ground (arith, retain_absent row.id (rows ++ rest)))
        (ground arith) in
    (left, logged ∙ append_assoc t.delivered_log (row ∷ []) rows)

join_event-none :
    (o : Delivery) (es : List Event) → has Event.id o.event_id es ≡ false → join_event o es ≡ []
unfolding join_event
join_event-none o [] h = refl
join_event-none o (e ∷ es) h = ground (arith, join_event-none o es)

-- Event ids are distinct, so a row of the outbox is joined once.
join_event-distinct :
    (o : Delivery) (es : List Event)
    → distinct Event.id es ≡ true
    → (join_event o es ≡ []) ⊎ ((e : Event) × (join_event o es ≡ joined o e ∷ []))
unfolding join_event
join_event-distinct o [] h = inl refl
join_event-distinct o (e ∷ es) h = elim (Bool-cases (e.id == o.event_id)) [
  | inl met ↦ inr (e, ground (arith, join_event-none o es))
  | inr other ↦ rw (other) (join_event-distinct o es (ground arith))
]

has-join_events :
    (n : ℕ) (os : List Delivery) (es : List Event)
    → distinct Event.id es ≡ true
    → has Delivery.id n os ≡ false
    → has OutboxRow.id n (join_events os es) ≡ false
unfolding join_events
has-join_events n [] es d h = refl
has-join_events n (o ∷ os) es d h = elim (join_event-distinct o es d) [
  | inl absent ↦ rw (absent) (has-join_events n os es d (ground arith))
  | inr (e, present) ↦ rw (present) (ground (arith, has-join_events n os es d))
]

pub join_events-distinct :
    (os : List Delivery) (es : List Event)
    → distinct Event.id es ≡ true
    → distinct Delivery.id os ≡ true
    → distinct OutboxRow.id (join_events os es) ≡ true
unfolding join_events
join_events-distinct [] es d h = refl
join_events-distinct (o ∷ os) es d h = elim (join_event-distinct o es d) [
  | inl absent ↦ rw (absent) (join_events-distinct os es d (ground arith))
  | inr (e, present) ↦
      rw (present) (ground (arith, join_events-distinct os es d, has-join_events o.id os es d))
]
