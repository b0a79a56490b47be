-- ===== src/Audit/Integrity/Purged.antt =====
-- The integrity of the tables through the three deletions of a purge.
use rust_panel.Audit.Ids.{has, fresh-retain, distinct-retain, refers-retain, refers_spared}
use rust_panel.Audit.Upkeep.{
  events_referenced, purge_events, purge_intents, purge_outbox, is_of_old_event, is_old_event,
  is_old_intent,
}
use rust_panel.Audit.Integrity.{IsSound, Delivery, is_closed, not, is_pending}
use rust_panel.Audit.Tables.{AuditTables, Intent, Event, Delivery, is_pending}
use rust_panel.Prelude.{
  refl, [], ◌∷◌, none, true, false, Bool, retain, ℕ, List, ◌==◌, all, any, ◌≡◌, arith, not, ◌||◌,
  ◌&&◌, any-and, any-ext,
}

all-retain :
    {A : Type 0} (p q : A → Bool) (xs : List A) → all p xs ≡ true → all p (retain q xs) ≡ true
unfolding retain
all-retain p q [] h = refl
all-retain p q (x ∷ xs) h = ground (arith, all-retain p q xs)

any-or :
    {A : Type 0} (p q : A → Bool) (xs : List A) → any (λ x. p x || q x) xs ≡ (any p xs || any q xs)
any-or p q [] = refl
any-or p q (x ∷ xs) = ground (arith, any-or p q xs)

==_comm : (a b : ℕ) → (a == b) ≡ (b == a)
==_comm a b = ground arith

-- Where no row of the outbox is of an old event, no old event is referred to.
unreferenced :
    (cutoff : ℕ) (es : List Event) (os : List Delivery)
    → any (is_of_old_event cutoff es) os ≡ false
    → all (λ e. not (has Delivery.event_id e.id os) || not (is_old_event cutoff e)) es ≡ true
unreferenced cutoff [] os h = refl
unreferenced cutoff (e ∷ es) os h = ground (
  arith,
  any-or (λ o. is_old_event cutoff e && e.id == o.event_id) (is_of_old_event cutoff es) os,
  any-and (is_old_event cutoff e) (λ o. e.id == o.event_id) os,
  any-ext (λ o. e.id == o.event_id) (λ o. o.event_id == e.id) os (λ o. ==_comm e.id o.event_id),
  unreferenced cutoff es os,
)

spared :
    (cutoff : ℕ) (es : List Event) (is : List Intent)
    → all (λ i. not (has Event.intent_id i.id es) || not (is_old_intent cutoff es i)) is ≡ true
spared cutoff es [] = refl
spared cutoff es (i ∷ is) = ground (arith, spared cutoff es is)

closed_of_fewer :
    (p : Intent → Bool) (is : List Intent) (es : List Event)
    → all (is_closed is) es ≡ true
    → all (is_closed (retain p is)) es ≡ true
unfolding retain
closed_of_fewer p is [] h = refl
closed_of_fewer p is (e ∷ es) h = ground (arith, closed_of_fewer p is es, fewer is)
  where
    fewer :
        (is : List Intent)
        → any (λ i. i.id == e.intent_id && is_pending i.status) is ≡ false
        → any (λ i. i.id == e.intent_id && is_pending i.status) (retain p is) ≡ false
    fewer [] k = refl
    fewer (i ∷ is) k = ground (arith, fewer is)

pub purge_outbox-IsSound :
    (cutoff : ℕ) (t : AuditTables) → IsSound t → IsSound (purge_outbox cutoff t)
purge_outbox-IsSound cutoff t h =
    let p = λ (o : Delivery). not (is_of_old_event cutoff t.events o) in
    record {
      intents_fresh = h.intents_fresh;
      events_fresh = h.events_fresh;
      outbox_fresh = fresh-retain Delivery.id p t.outbox_seq t.outbox h.outbox_fresh;
      intents_distinct = h.intents_distinct;
      events_distinct = h.events_distinct;
      outbox_distinct = distinct-retain Delivery.id p t.outbox h.outbox_distinct;
      events_refer = h.events_refer;
      outbox_refers = refers-retain Delivery.event_id Event.id p t.events t.outbox h.outbox_refers;
      closed = h.closed;
    }

pub purge_events-IsSound :
    (cutoff : ℕ) (t : AuditTables)
    → events_referenced cutoff t ≡ none
    → IsSound t
    → IsSound (purge_events cutoff t)
purge_events-IsSound cutoff t unbroken h =
    let p = λ (e : Event). not (is_old_event cutoff e) in
    record {
      intents_fresh = h.intents_fresh;
      events_fresh = fresh-retain Event.id p t.event_seq t.events h.events_fresh;
      outbox_fresh = h.outbox_fresh;
      intents_distinct = h.intents_distinct;
      events_distinct = distinct-retain Event.id p t.events h.events_distinct;
      outbox_distinct = h.outbox_distinct;
      events_refer = refers-retain Event.intent_id Intent.id p t.intents t.events h.events_refer;
      outbox_refers =
          refers_spared Delivery.event_id Event.id p t.events t.outbox
            (unreferenced cutoff t.events t.outbox (ground arith)) h.outbox_refers;
      closed = all-retain (is_closed t.intents) p t.events h.closed;
    }

pub purge_intents-IsSound :
    (cutoff : ℕ) (t : AuditTables) → IsSound t → IsSound (purge_intents cutoff t)
purge_intents-IsSound cutoff t h =
    let p = λ (i : Intent). not (is_old_intent cutoff t.events i) in
    record {
      intents_fresh = fresh-retain Intent.id p t.intent_seq t.intents h.intents_fresh;
      events_fresh = h.events_fresh;
      outbox_fresh = h.outbox_fresh;
      intents_distinct = distinct-retain Intent.id p t.intents h.intents_distinct;
      events_distinct = h.events_distinct;
      outbox_distinct = h.outbox_distinct;
      events_refer =
          refers_spared Event.intent_id Intent.id p t.intents t.events
            (spared cutoff t.events t.intents) h.events_refer;
      outbox_refers = h.outbox_refers;
      closed = closed_of_fewer p t.intents t.events h.closed;
    }
