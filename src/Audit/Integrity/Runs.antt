-- ===== src/Audit/Integrity/Runs.antt =====
-- The integrity of the tables through the purge, and over all runs of the store.
use rust_panel.Audit.Integrity.Purged.{
  purge_intents-IsSound, purge_events-IsSound, purge_outbox-IsSound,
}
use rust_panel.Audit.Integrity.{created}
use rust_panel.Audit.Intents.Recorded.{complete_body-recorded}
use rust_panel.Db.Steps.{writing}
use rust_panel.Db.Ensures.{ensures-imp, ensures->>=, ensures-constrained, ensures-pure}
use rust_panel.Audit.Integrity.Kept.{
  insert_intent-IsSound, update_intents-IsSound, update_outbox-IsSound, recorded-IsSound,
}
use rust_panel.Audit.Integrity.{
  IsSound, Reach, Step, Completion, beginning, stepped, completing, delivering, retrying,
  reconciling, purging,
}
use rust_panel.Db.Keeps.{
  Keeps, Keeps->>, Keeps->>=, Keeps-pure, Keeps-acquire, Keeps-constrained, Keeps-query,
  Keeps-transaction, Keeps-update,
}
use rust_panel.Audit.Tables.{AuditTables, OutboxRow, IntentHandle, IntentSpec}
use rust_panel.Audit.Upkeep.{purge_audit, reconcile_stale_intents, purge_body}
use rust_panel.Audit.Outbox.{
  deliver_pending_outbox, deliver_rows, mark_outbox_delivered, mark_outbox_retry,
  list_pending_outbox, log_delivered,
}
use rust_panel.Audit.Mask.{Value}
use rust_panel.Audit.Intents.{
  begin_intent, complete_intent, begin_intent_conn, complete_intent_conn, Completion,
}
use rust_panel.Prelude.{refl, [], ◌∷◌, List, ℕ, Option, Text, arith, ◌+◌, ◌-◌, subst, ◌*◌, sym}

-- The statement of each operation, on any connection.
Keeps-begin_intent :
    (to_string : Value → Option Text) (now : ℕ) (spec : IntentSpec)
    → Keeps IsSound (begin_intent to_string now spec)
unfolding begin_intent begin_intent_conn
Keeps-begin_intent to_string now spec = Keeps->> _ _ (Keeps-acquire _) (
    Keeps->> _ _ (Keeps-constrained _ _ _ λ t unbroken h. insert_intent-IsSound spec _ now t h)
      (Keeps->>= _ _ (Keeps-query _ _) λ id. Keeps-pure _))

Keeps-complete_intent :
    (to_string : Value → Option Text) (now : ℕ) (intent : IntentHandle) (c : Completion)
    → Keeps IsSound (complete_intent to_string now intent c)
unfolding complete_intent complete_intent_conn
Keeps-complete_intent to_string now intent c = Keeps->> _ _ (Keeps-acquire _) (
    Keeps-transaction _ _ λ t h.
      ensures-imp
        (λ _ u v. subst IsSound (sym v.0) (recorded-IsSound to_string now intent c t v.1 h))
        (complete_body-recorded to_string now intent c t))

Keeps-mark_outbox_delivered : (now id : ℕ) → Keeps IsSound (mark_outbox_delivered now id)
unfolding mark_outbox_delivered
Keeps-mark_outbox_delivered now id =
    Keeps->> _ _ (Keeps-acquire _)
      (Keeps-update _ _ λ t h. update_outbox-IsSound _ t (λ o. ground arith) (λ o. ground arith) h)

Keeps-mark_outbox_retry :
    (id : ℕ) (error : Text) (at : ℕ) → Keeps IsSound (mark_outbox_retry id error at)
unfolding mark_outbox_retry
Keeps-mark_outbox_retry id error at =
    Keeps->> _ _ (Keeps-acquire _)
      (Keeps-update _ _ λ t h. update_outbox-IsSound _ t (λ o. ground arith) (λ o. ground arith) h)

log_delivered-IsSound :
    (log : List OutboxRow) (t : AuditTables)
    → IsSound t
    → IsSound (record t { delivered_log = log })
log_delivered-IsSound log t h = record {
  intents_fresh = h.intents_fresh;
  events_fresh = h.events_fresh;
  outbox_fresh = h.outbox_fresh;
  intents_distinct = h.intents_distinct;
  events_distinct = h.events_distinct;
  outbox_distinct = h.outbox_distinct;
  events_refer = h.events_refer;
  outbox_refers = h.outbox_refers;
  closed = h.closed;
}

Keeps-deliver_rows :
    (now : ℕ) (rows : List OutboxRow) (n : ℕ) → Keeps IsSound (deliver_rows now rows n)
unfolding deliver_rows log_delivered
Keeps-deliver_rows now [] n = Keeps-pure n
Keeps-deliver_rows now (row ∷ rows) n =
    Keeps->> _ _ (record { at = λ c h. log_delivered-IsSound _ c.tables h })
      (Keeps->> _ _ (Keeps-mark_outbox_delivered now row.id) (Keeps-deliver_rows now rows (n + 1)))

pub Keeps-deliver_pending_outbox :
    (now limit : ℕ) → Keeps IsSound (deliver_pending_outbox now limit)
unfolding deliver_pending_outbox list_pending_outbox
Keeps-deliver_pending_outbox now limit =
    Keeps->>= _ _ (Keeps->> _ _ (Keeps-acquire _) (Keeps-query _ _))
      λ rows. Keeps-deliver_rows now rows 0

Keeps-reconcile_stale_intents : (now age : ℕ) → Keeps IsSound (reconcile_stale_intents now age)
unfolding reconcile_stale_intents
Keeps-reconcile_stale_intents now age = Keeps->> _ _ (Keeps-acquire _) (
    Keeps-update _ _
      λ t h. update_intents-IsSound _ t (λ i. ground arith) (λ i n met. ground arith) h)

Keeps-purge_audit : (now days : ℕ) → Keeps IsSound (purge_audit now days)
unfolding purge_audit purge_body
Keeps-purge_audit now days = Keeps->> _ _ (Keeps-acquire _) (
    Keeps-transaction _ _ λ t h.
      let cutoff = now - days * 86400000 in
      writing _ _ _ (
        ensures->>= _ _ _ _ (
          ensures-constrained _ _ _ _ _ λ unbroken. writing _ _ _ (
            ensures-pure _ _ _ (
              purge_intents-IsSound cutoff _
                (purge_events-IsSound cutoff _ unbroken (purge_outbox-IsSound cutoff t h)))))))

Step-IsSound :
    (to_string : Value → Option Text) (t u : AuditTables)
    → Step to_string t u
    → IsSound t
    → IsSound u
Step-IsSound to_string _ _ (beginning now spec c) h = (Keeps-begin_intent to_string now spec).at c h
Step-IsSound to_string _ _ (completing now intent done c) h =
    (Keeps-complete_intent to_string now intent done).at c h
Step-IsSound to_string _ _ (delivering now limit c) h =
    (Keeps-deliver_pending_outbox now limit).at c h
Step-IsSound to_string _ _ (retrying id error at c) h = (Keeps-mark_outbox_retry id error at).at c h
Step-IsSound to_string _ _ (reconciling now age c) h =
    (Keeps-reconcile_stale_intents now age).at c h
Step-IsSound to_string _ _ (purging now days c) h = (Keeps-purge_audit now days).at c h

-- In every state that the operations of the store reach from empty tables, in any order and whatever statements
-- fail: ids are distinct and at most the highest given, each event is of an intent and each row of the outbox of
-- an event, and no intent that has an event is pending.
pub Reach-IsSound :
    (to_string : Value → Option Text) (t : AuditTables) → Reach to_string t → IsSound t
Reach-IsSound to_string _ created = record {
  intents_fresh = refl;
  events_fresh = refl;
  outbox_fresh = refl;
  intents_distinct = refl;
  events_distinct = refl;
  outbox_distinct = refl;
  events_refer = refl;
  outbox_refers = refl;
  closed = refl;
}
Reach-IsSound to_string _ (stepped t u r s) =
    Step-IsSound to_string t u s (Reach-IsSound to_string t r)
