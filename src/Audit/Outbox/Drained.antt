-- ===== src/Audit/Outbox/Drained.antt =====
-- Repeated deliveries of the outbox of src/audit/store.rs.
use rust_panel.Audit.Ids.{has, refers}
use rust_panel.Prelude.{false, any, sym, Bool-cases, ◌∙◌, drop, ◌+◌, length-drop, append-take-drop}
use mathlib.Core.List.{append-nil, append_assoc}
use rust_panel.Audit.Integrity.Runs.{Keeps-deliver_pending_outbox}
use rust_panel.Audit.Outbox.Refines.{deliver_pending_outbox-quiet, deliver_queue}
use rust_panel.Audit.Outbox.Queue.{delivered, due_rows, Queue}
use rust_panel.Accounts.Tables.{is_none}
use rust_panel.Audit.Outbox.{
  deliver_pending_outbox, is_due, is_none, leb, set_delivered, take, join_events, Event, join_event,
}
use rust_panel.Db.{tables_after, quiet}
use rust_panel.Audit.Integrity.{IsSound}
use rust_panel.Audit.Tables.{AuditTables, Delivery, OutboxRow, Event}
use rust_panel.Prelude.{
  refl, [], ◌∷◌, true, inl, inr, List, retain, ℕ, Bool, all, ◌≤◌, not, ◌≡◌, leb, Option-cases,
  length, ◌||◌, arith, ◌++◌, all-map_of_imp, ◌*◌, take, ap, leb→le, subst,
}

-- no row that is not delivered waits for a retry after a time
abbrev pub is_settled : ℕ → Delivery → Bool
is_settled start o = not (is_none o.delivered_at) || is_due start o

due_later :
    (start now : ℕ) (os : List Delivery)
    → start ≤ now
    → all (is_settled start) os ≡ true
    → retain (is_due now) os ≡ retain (is_due start) os
unfolding retain
due_later start now [] le h = refl
due_later start now (o ∷ os) le h = elim (Option-cases o.next_retry_at) [
  | inl never ↦ ground (arith, due_later start now os le)
  | inr (at, waits) ↦ ground (arith, due_later start now os le)
]

delivered-settled :
    (start now : ℕ) (rows : List OutboxRow) (t : AuditTables)
    → all (is_settled start) t.outbox ≡ true
    → all (is_settled start) (delivered now rows t).outbox ≡ true
delivered-settled start now [] t h = h
delivered-settled start now (row ∷ rows) t h =
    delivered-settled start now rows
      (set_delivered now row.id (record t { delivered_log = t.delivered_log ++ row ∷ [] }))
      (all-map_of_imp (is_settled start) _ t.outbox (λ o k. ground arith) h)

-- the tables after a delivery at each reading of the clock, when every statement is answered
unfoldable pub rounds : List ℕ → ℕ → AuditTables → AuditTables
rounds [] limit t = t
rounds (now ∷ nows) limit t =
    rounds nows limit (tables_after (deliver_pending_outbox now limit) (quiet t))

joined_rows :
    (o : Delivery) (es : List Event) → has Event.id o.event_id es ≡ true → ¬ (join_event o es ≡ [])
unfolding join_event
joined_rows o [] h e = cc
joined_rows o (x ∷ es) h e = ground (arith, joined_rows o es)

none_left :
    (start : ℕ) (os : List Delivery) (es : List Event)
    → refers Delivery.event_id Event.id es os ≡ true
    → all (is_settled start) os ≡ true
    → join_events (retain (is_due start) os) es ≡ []
    → any (λ o. is_none o.delivered_at) os ≡ false
unfolding retain join_events
none_left start [] es r s e = refl
none_left start (o ∷ os) es r s e = elim (Bool-cases (is_due start o)) [
  | inl due ↦ absurd (
      joined_rows o es (ground arith)
        (head (join_event o es) (join_events (retain (is_due start) os) es) (ground arith)))
  | inr waits ↦ ground (arith, none_left start os es)
]
  where
    head : (xs ys : List OutboxRow) → xs ++ ys ≡ [] → xs ≡ []
    head [] ys k = refl
    head (x ∷ xs) ys k = cc

no_more : (xs : List OutboxRow) → length xs ≤ 0 → xs ≡ []
no_more [] h = refl
no_more (x ∷ xs) h = ground arith

-- When every statement is answered, the tables are sound and no row waits for a retry after the time of the
-- start, enough deliveries of up to `limit` rows at times from the start on empty the outbox: every row is then
-- delivered, and the log has got each of the rows that were due, once and in the order of their ids.
pub rounds-drained :
    (start limit : ℕ) (nows : List ℕ) (t : AuditTables)
    → IsSound t
    → all (is_settled start) t.outbox ≡ true
    → all (leb start) nows ≡ true
    → length (due_rows start t) ≤ length nows * limit
    → (any (λ o. is_none o.delivered_at) (rounds nows limit t).outbox ≡ false)
      × ((rounds nows limit t).delivered_log ≡ t.delivered_log ++ due_rows start t)
unfolding rounds
rounds-drained start limit [] t h s l b =
    let empty = no_more (due_rows start t) (ground arith) in
    (
      none_left start t.outbox t.events h.outbox_refers s empty,
      sym (ap (λ r. t.delivered_log ++ r) empty ∙ append-nil t.delivered_log),
    )
rounds-drained start limit (now ∷ nows) t h s l b =
    let w = due_rows start t in
    let u = delivered now (take limit (due_rows now t)) t in
    let ran : tables_after (deliver_pending_outbox now limit) (quiet t) ≡ u =
      ap (λ r. r.1.tables) (deliver_pending_outbox-quiet now limit t) in
    let le = leb→le start now (ground arith) in
    let same : due_rows now t ≡ w =
      ap (λ os. join_events os t.events) (due_later start now t.outbox le s) in
    let v : IsSound u =
      subst IsSound ran ((Keeps-deliver_pending_outbox now limit).at (quiet t) h) in
    let settled = delivered-settled start now (take limit (due_rows now t)) t s in
    let q = deliver_queue now limit t h in
    let left : due_rows start u ≡ drop limit w =
      ap (λ os. join_events os u.events) (sym (due_later start now u.outbox le settled))
      ∙ ap Queue.waiting q
      ∙ ap (drop limit) same in
    let logged : u.delivered_log ≡ t.delivered_log ++ take limit w =
      ap Queue.log q ∙ ap (λ r. t.delivered_log ++ take limit r) same in
    let expand : length (now ∷ nows) * limit ≡ length nows * limit + limit = omega arith in
    let (gone, log) =
      rounds-drained start limit nows u v settled (ground arith)
        (ground (arith, length-drop limit w, ap length left, expand)) in
    (
      ap (λ x. any (λ o. is_none o.delivered_at) (rounds nows limit x).outbox) ran ∙ gone,
      ap (λ x. (rounds nows limit x).delivered_log) ran
          ∙ log
          ∙ ap (λ d. u.delivered_log ++ d) left
          ∙ ap (λ d. d ++ drop limit w) logged
          ∙ append_assoc t.delivered_log (take limit w) (drop limit w)
          ∙ ap (λ r. t.delivered_log ++ r) (append-take-drop limit w),
    )
