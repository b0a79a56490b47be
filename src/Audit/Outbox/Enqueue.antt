-- ===== src/Audit/Outbox/Enqueue.antt =====
-- A completed intent as a step of the queue.
use rust_panel.Db.Quiet.{>>-constrained-quiet, constrained-quiet}
use rust_panel.Accounts.Tables.{change}
use rust_panel.Audit.Intents.Recorded.{recorded}
use rust_panel.Audit.Outbox.Queue.{due_rows, queue_of, enqueue}
use rust_panel.Audit.Integrity.{IsSound}
use rust_panel.Audit.Ids.{has, fresh, refers, has_of_fresh, refers-retain, has-map}
use rust_panel.Audit.Tables.{
  IntentHandle, Delivery, Event, AuditTables, OutboxRow, Intent, transaction_failed,
}
use rust_panel.Audit.Outbox.{
  join_event, join_events, Delivery, Event, AuditTables, Text, ℕ, OutboxRow, acquire, joined,
  update, query, is_due, change,
}
use rust_panel.Audit.Mask.{Value}
use rust_panel.Audit.Intents.{
  complete_intent, Completion, complete_intent_conn, complete_body, new_event, serialize,
  new_delivery, set_status, status_of, insert_event, intent_exists, event_exists, insert_delivery,
}
use rust_panel.Prelude.{
  refl, [], ◌∷◌, none, ok, true, false, List, retain, Option, Text, ℕ, ◌==◌, ◌≡◌, ap, arith, ◌+◌,
  ◌∙◌, sym, retain-append, any-append,
}
use rust_panel.Db.{
  ◌>>=◌, ◌>>◌, acquire, update, query, reply, constrained, quiet, transaction, finish, tables_after,
}
use rust_panel.Prelude.{◌++◌}
use mathlib.Core.List.{append_assoc, List}

join_event-append :
    (o : Delivery) (es : List Event) (e : Event)
    → (e.id == o.event_id) ≡ false
    → join_event o (es ++ e ∷ []) ≡ join_event o es
unfolding join_event
join_event-append o [] e h = ground arith
join_event-append o (x ∷ es) e h = ground (arith, join_event-append o es e h)

absent :
    (es : List Event) (n m : ℕ)
    → has Event.id n es ≡ false
    → has Event.id m es ≡ true
    → (n == m) ≡ false
absent [] n m h k = cc
absent (x ∷ es) n m h k = ground (arith, absent es n m)

join_events-append :
    (os : List Delivery) (es : List Event) (e : Event) (top : ℕ)
    → fresh Event.id top es ≡ true
    → refers Delivery.event_id Event.id es os ≡ true
    → e.id ≡ top + 1
    → join_events os (es ++ e ∷ []) ≡ join_events os es
unfolding join_events
join_events-append [] es e top f r new = refl
join_events-append (o ∷ os) es e top f r new = cc (
  join_event-append o es e (
      ap (λ n. n == o.event_id) new
      ∙ absent es (top + 1) o.event_id (has_of_fresh Event.id top (top + 1) es f (omega arith))
          (ground arith)),
  join_events-append os es e top f (ground arith) new,
)

join_event_of_new :
    (o : Delivery) (es : List Event) (e : Event)
    → has Event.id o.event_id es ≡ false
    → (e.id == o.event_id) ≡ true
    → join_event o (es ++ e ∷ []) ≡ joined o e ∷ []
unfolding join_event
join_event_of_new o [] e h same = ground arith
join_event_of_new o (x ∷ es) e h same = ground (arith, join_event_of_new o es e)

append-join_events :
    (os ps : List Delivery) (es : List Event)
    → join_events (os ++ ps) es ≡ join_events os es ++ join_events ps es
unfolding join_events
append-join_events [] ps es = refl
append-join_events (o ∷ os) ps es =
    ap (λ r. join_event o es ++ r) (append-join_events os ps es)
    ∙ sym (append_assoc (join_event o es) (join_events os es) (join_events ps es))

-- the row of the queue for the outcome of an intent
abbrev pub row_of : IntentHandle → Completion → AuditTables → OutboxRow
row_of intent c t = record {
  id = t.outbox_seq + 1;
  event_id = t.event_seq + 1;
  attempts = 0;
  operation_id = intent.operation_id;
  outcome = c.outcome;
}

pub recorded_queue :
    (to_string : Value → Option Text) (now at : ℕ) (intent : IntentHandle) (c : Completion)
    (t : AuditTables)
    → IsSound t
    → due_rows now (recorded to_string at intent c t) ≡ due_rows now t ++ row_of intent c t ∷ []
unfolding retain join_events
recorded_queue to_string now at intent c t h =
    let e = new_event intent c (serialize to_string c.detail) at (t.event_seq + 1) in
    let o = new_delivery (t.event_seq + 1) at (t.outbox_seq + 1) in
    let old = retain (is_due now) t.outbox in
    ap (λ os. join_events os (t.events ++ e ∷ [])) (retain-append (is_due now) t.outbox (o ∷ []))
    ∙ append-join_events old (o ∷ []) (t.events ++ e ∷ [])
    ∙ ap (λ r. r ++ (join_event o (t.events ++ e ∷ []) ++ []))
        (join_events-append old t.events e t.event_seq h.events_fresh
          (refers-retain Delivery.event_id Event.id (is_due now) t.events t.outbox h.outbox_refers)
          refl)
    ∙ ap (λ r. join_events old t.events ++ (r ++ []))
        (join_event_of_new o t.events e
          (has_of_fresh Event.id t.event_seq (t.event_seq + 1) t.events h.events_fresh
            (omega arith))
          (ground arith))

pub complete_intent-quiet :
    (to_string : Value → Option Text) (at : ℕ) (intent : IntentHandle) (c : Completion)
    (t : AuditTables)
    → has Intent.id intent.id t.intents ≡ true
    → complete_intent to_string at intent c (quiet t)
      ≡ (ok tt, quiet (recorded to_string at intent c t))
unfolding complete_intent complete_intent_conn complete_body acquire update query constrained
    transaction finish ◌>>◌ ◌>>=◌
complete_intent-quiet to_string at intent c t known =
    let t1 = set_status intent.id (status_of c.outcome) t in
    let t2 = insert_event intent c (serialize to_string c.detail) at t1 in
    let met : intent_exists intent.id t1 ≡ none = ground (
      arith,
      has-map Intent.id
          (change (λ i. i.id == intent.id) (λ i. record i { status = status_of c.outcome }))
          (λ i. ground arith) intent.id t.intents,
    ) in
    let linked : event_exists (t.event_seq + 1) t2 ≡ none = ground (
      arith,
      any-append (λ e. Event.id e == t.event_seq + 1) t.events
          (new_event intent c (serialize to_string c.detail) at (t.event_seq + 1) ∷ []),
    ) in
    ap (finish transaction_failed t) (
      >>-constrained-quiet _ (intent_exists intent.id)
        (λ t. (tt, insert_event intent c (serialize to_string c.detail) at t)) _ t1 met
      ∙ constrained-quiet _ (event_exists (t.event_seq + 1))
          (λ u. (tt, insert_delivery (t.event_seq + 1) at u)) t2 linked)

-- On sound tables, when every statement is answered, recording the outcome of an intent that is there
-- succeeds and is a step of the queue: a row with the operation and the outcome comes last, due at once, and
-- nothing of the rows before it nor of the log changes.
pub complete_intent-enqueue :
    (to_string : Value → Option Text) (now at : ℕ) (intent : IntentHandle) (c : Completion)
    (t : AuditTables)
    → IsSound t
    → has Intent.id intent.id t.intents ≡ true
    → (reply (complete_intent to_string at intent c) (quiet t) ≡ ok tt)
      × (queue_of now (tables_after (complete_intent to_string at intent c) (quiet t))
          ≡ enqueue (row_of intent c t) (queue_of now t))
complete_intent-enqueue to_string now at intent c t h known =
    let ran = complete_intent-quiet to_string at intent c t known in
    (
      ap (λ r. r.0) ran,
      ap (λ r. queue_of now r.1.tables) ran
          ∙ ap (λ w. record { waiting = w; log = t.delivered_log })
              (recorded_queue to_string now at intent c t h),
    )
