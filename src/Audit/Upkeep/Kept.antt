-- ===== src/Audit/Upkeep/Kept.antt =====
-- What the clean-ups change, and what they leave.
use rust_panel.Db.Quiet.{>>=-constrained-quiet}
use rust_panel.Prelude.{none, any-retain-not, ap}
use rust_panel.Db.Steps.{connecting}
use rust_panel.Accounts.Tables.{change}
use rust_panel.Db.Ensures.{Ensures, ensures-update}
use rust_panel.Audit.Integrity.{IsSound, is_closed}
use rust_panel.Audit.Tables.{AuditTables, Event, Intent, unknown, transaction_failed}
use rust_panel.Audit.Upkeep.{
  purge_audit, reconcile_stale_intents, AuditTables, Event, List, purge_body, acquire,
  purge_intents, any, purge_events, update, is_stale, purge_outbox, transaction, change, count,
  is_of_old_event, is_old_event, is_old_intent, not, events_referenced,
}
use rust_panel.Prelude.{
  refl, [], ◌∷◌, ok, true, false, retain, ℕ, List, any, ◌≡◌, count, ◌==◌, ◌-◌, arith, ◌*◌, All, ◌+◌,
  All-map, all_iff, not,
}
use rust_panel.Db.{◌>>=◌, ◌>>◌, acquire, update, transaction, finish, quiet}
use rust_panel.Prelude.{map}

count_stale :
    (cutoff : ℕ) (is : List Intent)
    → any (is_stale cutoff) (map (change (is_stale cutoff) (λ i. record i { status = unknown })) is)
      ≡ false
count_stale cutoff [] = refl
count_stale cutoff (i ∷ is) = ground (arith, count_stale cutoff is)

-- No intent of the event is stale, as none is pending.
settled_row :
    (cutoff : ℕ) (e : Event) (is : List Intent)
    → is_closed is e ≡ true
    → retain
        (λ i. i.id == e.intent_id)
        (map (change (is_stale cutoff) (λ i. record i { status = unknown })) is)
      ≡ retain (λ i. i.id == e.intent_id) is
unfolding retain
settled_row cutoff e [] h = refl
settled_row cutoff e (i ∷ is) h = ground (arith, settled_row cutoff e is)

-- After a reconciliation, on sound tables, no pending intent is older than the given age; the answer is how many
-- were, and the intents of every event are as they were.
pub reconcile_stale_intents-settled :
    (now age : ℕ) (t : AuditTables)
    → IsSound t
    → Ensures (reconcile_stale_intents now age) t (λ n u.
      (n ≡ count (is_stale (now - age * 1000)) t.intents)
      × (any (is_stale (now - age * 1000)) u.intents ≡ false)
      × (u.events ≡ t.events)
      × All
          (λ e.
            retain (λ i. Intent.id i == Event.intent_id e) u.intents
            ≡ retain (λ i. Intent.id i == Event.intent_id e) t.intents)
          t.events)
unfolding reconcile_stale_intents
reconcile_stale_intents-settled now age t h = connecting _ _ (
    ensures-update _ _ t _ (
      refl,
      count_stale (now - age * 1000) t.intents,
      refl,
      All-map t.events (λ e k. settled_row (now - age * 1000) e t.intents k)
          ((all_iff (is_closed t.intents) t.events).0 h.closed),
    ))

abbrev pub purged : ℕ → AuditTables → AuditTables
purged cutoff t = purge_intents cutoff (purge_events cutoff (purge_outbox cutoff t))

-- When every statement is answered a purge succeeds, since no foreign key stands against its deletions: the events from
-- before the cut-off go, with their rows of the outbox, delivered or not, and so do the intents from before it
-- that have no event left; the answer counts them.
purge_audit-purged :
    (now days : ℕ) (t : AuditTables)
    → let cutoff = now - days * 86400000 in
      purge_audit now days (quiet t) ≡ (
        ok (
            count (is_of_old_event cutoff t.events) t.outbox
            + count (is_old_event cutoff) t.events
            + count
                (is_old_intent cutoff (retain (λ e. not (is_old_event cutoff e)) t.events))
                t.intents),
        quiet (purged cutoff t),
      )
unfolding purge_audit purge_body acquire update transaction finish ◌>>◌ ◌>>=◌
purge_audit-purged now days t =
    let cutoff = now - days * 86400000 in
    let free : events_referenced cutoff (purge_outbox cutoff t) ≡ none =
      ground (arith, any-retain-not (is_of_old_event cutoff t.events) t.outbox) in
    ap (finish transaction_failed t) (
      >>=-constrained-quiet _ (events_referenced cutoff)
        (λ u. (count (is_old_event cutoff) u.events, purge_events cutoff u)) _
        (purge_outbox cutoff t) free)
