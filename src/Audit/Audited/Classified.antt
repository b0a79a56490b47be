-- ===== src/Audit/Audited/Classified.antt =====
-- The rows that `execute_audited` of src/privileged/audited.rs leaves for a result of the runner.
use rust_panel.Prelude.Map.{or_else}
use rust_panel.Db.{quiet}
use rust_panel.Audit.Intents.Recorded.{handle_of, begun}
use rust_panel.Audit.Mask.{Value, mask_value}
use rust_panel.Prelude.{false, any, text_eq, ◌++◌, Bool, if◌then◌else◌, codes}
use rust_panel.Accounts.Tables.{change}
use rust_panel.Prelude.Int.{pos, ℤ, eq_ℤ, eq_ℤ_iff}
use rust_panel.Audit.Intents.{status_of, new_event, serialize, new_intent, new_delivery}
use rust_panel.Audit.Ids.{fresh}
use rust_panel.Privileged.Message.{runner_rejected}
use rust_panel.Privileged.Command.{RunnerResult, Host, execute}
use rust_panel.Prelude.{
  refl, [], ◌∷◌, none, some, ok, err, true, Result, Text, ℕ, List, Option, ◌≡◌, map, ◌==◌, ◌+◌, ◌∙◌,
  ap, arith,
}
use rust_panel.Audit.Audited.Ordered.{audited, execute_audited-quiet}
use rust_panel.Audit.Integrity.{IsSound}
use rust_panel.Audit.Integrity.Kept.{insert_intent-IsSound}
use rust_panel.Audit.Outbox.Enqueue.{recorded_queue}
use rust_panel.Audit.Outbox.Queue.{queue_of, enqueue}
use rust_panel.Audit.Tables.{
  Status, Outcome, executed, failed, rejected, success, failure, timeout, rejection, Intent,
  AuditTables, Event,
}
use rust_panel.Privileged.Action.{id}
use rust_panel.Privileged.Action.{RunnerError, timed_out, spawn, io, Reason, Action}
use rust_panel.Audit.Audited.{
  completion_of, execute_audited, request_of, spec_of, Result, Text, ℕ, List, RunnerResult,
  runner_rejected, Option, map, pos, eq_ℤ, Value, Host, execute, Bool, resource_for, or_else,
  action_params, codes,
}

-- How a result of the runner is to be recorded: the status of the intent, and the outcome of the event.
pub data IsOutcome : Result RunnerError RunnerResult → Status → Outcome → Type 0 where
  succeeded : {r : RunnerResult} → r.exit_code ≡ some (pos 0) → IsOutcome (ok r) executed success
  went_wrong : {r : RunnerResult} → ¬ (r.exit_code ≡ some (pos 0)) → IsOutcome (ok r) failed failure
  ran_out : {a : Text} {ms : ℕ} → IsOutcome (err (timed_out a ms)) failed timeout
  turned_away : {reason : Reason} → IsOutcome (err (RunnerError.rejected reason)) rejected rejection
  not_started : {m : Text} → IsOutcome (err (spawn m)) failed failure
  broke : {m : Text} → IsOutcome (err (io m)) failed failure

abbrev pub exit_of : Result RunnerError RunnerResult → Option ℤ
exit_of (ok r) = r.exit_code
exit_of (err e) = none

exited-IsOutcome :
    (r : RunnerResult) (code : ℤ) (b : Bool)
    → r.exit_code ≡ some code
    → eq_ℤ code (pos 0) ≡ b
    → IsOutcome (ok r) (status_of (if b then success else failure)) (if b then success else failure)
exited-IsOutcome r code true same clean =
    succeeded (same ∙ ap some ((eq_ℤ_iff code (pos 0)).0 clean))
exited-IsOutcome r code false same other =
    went_wrong (λ e. cc (other, (eq_ℤ_iff code (pos 0)).1 (cc (same, e))))

abbrev outcome_of : Option ℤ → Outcome
outcome_of none = failure
outcome_of (some code) = if eq_ℤ code (pos 0) then success else failure

ended-IsOutcome :
    (r : RunnerResult) (o : Option ℤ)
    → r.exit_code ≡ o
    → IsOutcome (ok r) (status_of (outcome_of o)) (outcome_of o)
ended-IsOutcome r none same = went_wrong (λ e. cc (same, e))
ended-IsOutcome r (some code) same = exited-IsOutcome r code (eq_ℤ code (pos 0)) same refl

module _ (debug : Text → Text) where
  completion_of-IsOutcome :
      (r : Result RunnerError RunnerResult)
      → IsOutcome r (status_of (completion_of debug r).outcome) (completion_of debug r).outcome
  unfolding completion_of runner_rejected
  completion_of-IsOutcome (ok r) = ended-IsOutcome r r.exit_code refl
  completion_of-IsOutcome (err (timed_out a ms)) = ran_out
  completion_of-IsOutcome (err (RunnerError.rejected reason)) = turned_away
  completion_of-IsOutcome (err (spawn m)) = not_started
  completion_of-IsOutcome (err (io m)) = broke

  completion_of-exit_of :
      (r : Result RunnerError RunnerResult) → (completion_of debug r).exit_code ≡ exit_of r
  unfolding completion_of
  completion_of-exit_of (ok r) = refl
  completion_of-exit_of (err (timed_out a ms)) = refl
  completion_of-exit_of (err (RunnerError.rejected reason)) = refl
  completion_of-exit_of (err (spawn m)) = refl
  completion_of-exit_of (err (io m)) = refl

-- An update of the row with the next id leaves the rows before it.
change_last :
    (top : ℕ) (f : Intent → Intent) (is : List Intent) (i : Intent)
    → fresh Intent.id top is ≡ true
    → i.id ≡ top + 1
    → map (change (λ i. Intent.id i == top + 1) f) (is ++ i ∷ []) ≡ is ++ f i ∷ []
change_last top f [] i h new = ground (arith, new)
change_last top f (j ∷ is) i h new = ground (arith, change_last top f is i, new)

-- The row of an intent whose action was run.
abbrev pub intent_row : (Value → Option Text) → ℕ → Text → Option ℕ → Action → ℕ → Status → Intent
intent_row to_string started op actor_id action row status = record {
  id = row;
  operation_id = op;
  actor_id = actor_id;
  request_id = none;
  action = id action;
  resource = resource_for action;
  params_masked = or_else (to_string (mask_value (action_params action))) (codes "{}");
  ip = none;
  status = status;
  created_at = started;
}

module _ (to_string : Value → Option Text) (debug : Text → Text) (host : Host) where
  -- What a run leaves: one intent, one event and one row of the outbox, by the result of the runner.
  pub record IsRecorded (started ended : ℕ) (op : Text) (actor_id : Option ℕ) (action : Action)
      (t u : AuditTables) : Type 0 where
    pub status : Status
    pub event : Event
    pub by_result : IsOutcome (execute host (request_of op actor_id action)).0 status event.outcome
    pub intents :
        u.intents
        ≡ t.intents
          ++ intent_row to_string started op actor_id action (t.intent_seq + 1) status ∷ []
    pub events : u.events ≡ t.events ++ event ∷ []
    pub numbered : event.id ≡ t.event_seq + 1
    pub of_intent : event.intent_id ≡ t.intent_seq + 1
    pub of_operation : event.operation_id ≡ op
    pub exit_code : event.exit_code ≡ exit_of (execute host (request_of op actor_id action)).0
    pub outbox : u.outbox ≡ t.outbox ++ new_delivery event.id ended (t.outbox_seq + 1) ∷ []
    pub queued :
        (now : ℕ)
        → queue_of now u
          ≡ enqueue
              (record {
                id = t.outbox_seq + 1;
                event_id = event.id;
                attempts = 0;
                operation_id = op;
                outcome = event.outcome;
              })
              (queue_of now t)

  audited-IsRecorded :
      (started ended : ℕ) (op : Text) (actor_id : Option ℕ) (action : Action) (t : AuditTables)
      → IsSound t
      → IsRecorded started ended op actor_id action t
          (audited to_string debug host started ended op actor_id action t)
  audited-IsRecorded started ended op actor_id action t h =
      let spec = spec_of op actor_id action in
      let result = (execute host (request_of op actor_id action)).0 in
      let done = completion_of debug result in
      record {
        status = status_of done.outcome;
        event =
            new_event (handle_of spec t) done (serialize to_string done.detail) ended
              (t.event_seq + 1);
        by_result = completion_of-IsOutcome debug result;
        intents =
            change_last t.intent_seq (λ i. record i { status = status_of done.outcome }) t.intents
              (new_intent spec (serialize to_string spec.params) started (t.intent_seq + 1))
              h.intents_fresh refl;
        events = refl;
        numbered = refl;
        outbox = refl;
        of_intent = refl;
        of_operation = refl;
        exit_code = completion_of-exit_of debug result;
        queued = λ now.
            ap (λ w. record { waiting = w; log = t.delivered_log })
              (recorded_queue to_string now ended (handle_of spec t) done
                (begun to_string started spec t) (insert_intent-IsSound spec _ started t h));
      }

  -- When every statement is answered and the tables are sound, a run under a new operation id adds one intent, one event
  -- and one undelivered row of the outbox, and no other row changes. The intent, with masked parameters, is
  -- executed and its event a success exactly when the process ended with code 0; after another end, a timeout or an
  -- error of the system it failed, and a rejected action is recorded as rejected. The event has the exit code,
  -- and its row comes last in the queue.
  pub execute_audited-IsRecorded :
      (started ended : ℕ) (op : Text) (actor_id : Option ℕ) (action : Action) (t : AuditTables)
      → IsSound t
      → any (λ i. text_eq i.operation_id op) t.intents ≡ false
      → (u : AuditTables) × ((execute_audited to_string debug host started ended op actor_id action
            (quiet t)).conn
          ≡ quiet u)
        × IsRecorded started ended op actor_id action t u
  execute_audited-IsRecorded started ended op actor_id action t h new = (
    audited to_string debug host started ended op actor_id action t,
    execute_audited-quiet to_string debug host started ended op actor_id action t new,
    audited-IsRecorded started ended op actor_id action t h,
  )
