-- ===== src/Audit/Integrity/Kept.antt =====
-- The integrity of the tables under the operations of src/audit/store.rs, but for the deletions.
use rust_panel.Audit.Intents.Recorded.{recorded}
use rust_panel.Audit.Mask.{Value}
use rust_panel.Audit.Tables.{success, failure, timeout, rejection, IntentHandle}
use rust_panel.Accounts.Tables.{change}
use rust_panel.Audit.Intents.{
  insert_intent, set_status, new_intent, status_of, Completion, insert_delivery, insert_event,
  new_delivery, new_event, serialize,
}
use rust_panel.Audit.Integrity.{
  IsSound, is_pending, all, is_closed, any, IntentHandle, Value, Completion, Option,
}
use rust_panel.Audit.Ids.{
  fresh, fresh-map, refers, distinct-map, fresh-append, distinct-append, refers-map_left,
  refers-map_right, refers-append, has_of_fresh, has,
}
use rust_panel.Prelude.{
  refl, [], ◌∷◌, true, false, List, ℕ, Text, ◌==◌, ◌≡◌, ◌&&◌, ◌+◌, ◌∙◌, all, arith, any, any-append,
  Option, all-append,
}
use rust_panel.Audit.Tables.{Delivery, Intent, IntentSpec, AuditTables, Event, Outcome, is_pending}
use rust_panel.Prelude.{map, ◌++◌}

closed_of_new :
    (is : List Intent) (i : Intent) (es : List Event) (top : ℕ)
    → fresh Intent.id top is ≡ true
    → refers Event.intent_id Intent.id is es ≡ true
    → i.id ≡ top + 1
    → all (is_closed is) es ≡ true
    → all (is_closed (is ++ i ∷ [])) es ≡ true
closed_of_new is i [] top h r new k = refl
closed_of_new is i (e ∷ es) top h r new k = ground (
  arith,
  closed_of_new is i es top,
  any-append (λ i. i.id == e.intent_id && is_pending i.status) is (i ∷ []),
  has_of_fresh Intent.id top e.intent_id is h,
)

pub insert_intent-IsSound :
    (spec : IntentSpec) (params : Text) (now : ℕ) (t : AuditTables)
    → IsSound t
    → IsSound (insert_intent spec params now t)
insert_intent-IsSound spec params now t h =
    let i = new_intent spec params now (t.intent_seq + 1) in
    record {
      intents_fresh = fresh-append Intent.id t.intent_seq t.intents i h.intents_fresh refl;
      events_fresh = h.events_fresh;
      outbox_fresh = h.outbox_fresh;
      intents_distinct =
          distinct-append Intent.id t.intent_seq t.intents i h.intents_fresh h.intents_distinct
            refl;
      events_distinct = h.events_distinct;
      outbox_distinct = h.outbox_distinct;
      events_refer = refers-append Event.intent_id Intent.id t.intents i t.events h.events_refer;
      outbox_refers = h.outbox_refers;
      closed =
          closed_of_new t.intents i t.events t.intent_seq h.intents_fresh h.events_refer refl
            h.closed;
    }

-- An update of intents that makes none pending.
closed-map :
    (f : Intent → Intent) (is : List Intent) (es : List Event)
    → ((i : Intent) (n : ℕ)
        → ((f i).id == n && is_pending (f i).status) ≡ true
        → (i.id == n && is_pending i.status) ≡ true)
    → all (is_closed is) es ≡ true
    → all (is_closed (map f is)) es ≡ true
closed-map f is [] h k = refl
closed-map f is (e ∷ es) h k = ground (arith, closed-map f is es h, never is)
  where
    never :
        (is : List Intent)
        → any (λ i. i.id == e.intent_id && is_pending i.status) is ≡ false
        → any (λ i. i.id == e.intent_id && is_pending i.status) (map f is) ≡ false
    never [] p = refl
    never (i ∷ is) p = ground (arith, never is, h i e.intent_id)

pub update_intents-IsSound :
    (f : Intent → Intent) (t : AuditTables)
    → ((i : Intent) → (f i).id ≡ i.id)
    → ((i : Intent) (n : ℕ)
        → ((f i).id == n && is_pending (f i).status) ≡ true
        → (i.id == n && is_pending i.status) ≡ true)
    → IsSound t
    → IsSound (record t { intents = map f t.intents })
update_intents-IsSound f t keeps settles h = record {
  intents_fresh = fresh-map Intent.id f keeps t.intent_seq t.intents ∙ h.intents_fresh;
  events_fresh = h.events_fresh;
  outbox_fresh = h.outbox_fresh;
  intents_distinct = distinct-map Intent.id f keeps t.intents ∙ h.intents_distinct;
  events_distinct = h.events_distinct;
  outbox_distinct = h.outbox_distinct;
  events_refer =
      refers-map_left Event.intent_id Intent.id f t.intents t.events keeps h.events_refer;
  outbox_refers = h.outbox_refers;
  closed = closed-map f t.intents t.events settles h.closed;
}

pub update_outbox-IsSound :
    (f : Delivery → Delivery) (t : AuditTables)
    → ((o : Delivery) → (f o).id ≡ o.id)
    → ((o : Delivery) → (f o).event_id ≡ o.event_id)
    → IsSound t
    → IsSound (record t { outbox = map f t.outbox })
update_outbox-IsSound f t keeps links h = record {
  intents_fresh = h.intents_fresh;
  events_fresh = h.events_fresh;
  outbox_fresh = fresh-map Delivery.id f keeps t.outbox_seq t.outbox ∙ h.outbox_fresh;
  intents_distinct = h.intents_distinct;
  events_distinct = h.events_distinct;
  outbox_distinct = distinct-map Delivery.id f keeps t.outbox ∙ h.outbox_distinct;
  events_refer = h.events_refer;
  outbox_refers =
      refers-map_right Delivery.event_id Event.id f t.events t.outbox links ∙ h.outbox_refers;
  closed = h.closed;
}

not_pending : (o : Outcome) → is_pending (status_of o) ≡ false
not_pending success = refl
not_pending failure = refl
not_pending timeout = refl
not_pending rejection = refl

set_status-IsSound :
    (id : ℕ) (o : Outcome) (t : AuditTables) → IsSound t → IsSound (set_status id (status_of o) t)
set_status-IsSound id o t h =
    update_intents-IsSound (change (λ i. i.id == id) (λ i. record i { status = status_of o })) t
      (λ i. ground arith) (λ i n met. settled i n met) h
  where
    settled :
        (i : Intent) (n : ℕ)
        → ((change (λ i. i.id == id) (λ i. record i { status = status_of o }) i).id == n
            && is_pending
                (change (λ i. i.id == id) (λ i. record i { status = status_of o }) i).status)
          ≡ true
        → (i.id == n && is_pending i.status) ≡ true
    settled i n met = ground (arith, not_pending o)

-- An event of an intent that is there and not pending.
insert_event-IsSound :
    (intent : IntentHandle) (c : Completion) (detail : Text) (now : ℕ) (t : AuditTables)
    → has Intent.id intent.id t.intents ≡ true
    → any (λ i. i.id == intent.id && is_pending i.status) t.intents ≡ false
    → IsSound t
    → IsSound (insert_event intent c detail now t)
insert_event-IsSound intent c detail now t known settled h =
    let e = new_event intent c detail now (t.event_seq + 1) in
    record {
      intents_fresh = h.intents_fresh;
      events_fresh = fresh-append Event.id t.event_seq t.events e h.events_fresh refl;
      outbox_fresh = h.outbox_fresh;
      intents_distinct = h.intents_distinct;
      events_distinct =
          distinct-append Event.id t.event_seq t.events e h.events_fresh h.events_distinct refl;
      outbox_distinct = h.outbox_distinct;
      events_refer = ground (
        arith,
        all-append (λ e. has Intent.id e.intent_id t.intents) t.events (e ∷ []),
        h.events_refer,
        known,
      );
      outbox_refers = refers-append Delivery.event_id Event.id t.events e t.outbox h.outbox_refers;
      closed =
          ground (arith, all-append (is_closed t.intents) t.events (e ∷ []), h.closed, settled);
    }

insert_delivery-IsSound :
    (event_id now : ℕ) (t : AuditTables)
    → has Event.id event_id t.events ≡ true
    → IsSound t
    → IsSound (insert_delivery event_id now t)
insert_delivery-IsSound event_id now t known h =
    let o = new_delivery event_id now (t.outbox_seq + 1) in
    record {
      intents_fresh = h.intents_fresh;
      events_fresh = h.events_fresh;
      outbox_fresh = fresh-append Delivery.id t.outbox_seq t.outbox o h.outbox_fresh refl;
      intents_distinct = h.intents_distinct;
      events_distinct = h.events_distinct;
      outbox_distinct =
          distinct-append Delivery.id t.outbox_seq t.outbox o h.outbox_fresh h.outbox_distinct refl;
      events_refer = h.events_refer;
      outbox_refers = ground (
        arith,
        all-append (λ o. has Event.id o.event_id t.events) t.outbox (o ∷ []),
        h.outbox_refers,
        known,
      );
      closed = h.closed;
    }

set_status-settled :
    (id : ℕ) (o : Outcome) (is : List Intent)
    → any
        (λ i. i.id == id && is_pending i.status)
        (map (change (λ i. i.id == id) (λ i. record i { status = status_of o })) is)
      ≡ false
set_status-settled id o [] = refl
set_status-settled id o (i ∷ is) = ground (arith, set_status-settled id o is, not_pending o)

pub recorded-IsSound :
    (to_string : Value → Option Text) (now : ℕ) (intent : IntentHandle) (c : Completion)
    (t : AuditTables)
    → has Intent.id intent.id (set_status intent.id (status_of c.outcome) t).intents ≡ true
    → IsSound t
    → IsSound (recorded to_string now intent c t)
recorded-IsSound to_string now intent c t known h =
    let t1 = set_status intent.id (status_of c.outcome) t in
    let e = new_event intent c (serialize to_string c.detail) now (t.event_seq + 1) in
    insert_delivery-IsSound (t.event_seq + 1) now
      (insert_event intent c (serialize to_string c.detail) now t1)
      (any-append (λ x. Event.id x == (t.event_seq + 1)) t.events (e ∷ []) ∙ ground arith)
      (insert_event-IsSound intent c (serialize to_string c.detail) now t1 known
        (set_status-settled intent.id c.outcome t.intents)
        (set_status-IsSound intent.id c.outcome t h))
