-- ===== src/Audit/Audited/Ordered.antt =====
-- The order of intent, execution and outcome.
use rust_panel.Prelude.{◌∷◌, any-append, ◌==◌, ◌+◌}
use rust_panel.Audit.Outbox.Enqueue.{complete_intent-quiet}
use rust_panel.Db.Quiet.{>>-constrained-quiet}
use rust_panel.Db.Ensures.{ensures-ok}
use rust_panel.Audit.Intents.Recorded.{
  handle_of, begun, begin_intent-begun, recorded, complete_intent-IsWhole,
}
use rust_panel.Db.Whole.{IsWhole}
use rust_panel.Audit.Tables.{AuditTables, AuditError, IntentHandle, IntentSpec, Intent}
use rust_panel.Privileged.Action.{Action}
use rust_panel.Audit.Intents.{
  begin_intent, begin_intent_conn, unique_operation, insert_intent, serialize, complete_intent,
  new_intent,
}
use rust_panel.Audit.Audited.{
  execute_audited, Action, Conn, AuditTables, AuditError, Audited, IntentHandle, IntentSpec, audit,
  spec_of, run_recorded, completion_of, request_of, execute, answer_of, complete_intent, run_begun,
}
use rust_panel.Privileged.Command.{Host, execute}
use rust_panel.Audit.Mask.{Value}
use rust_panel.Prelude.{
  refl, [], ok, err, false, inl, inr, Option, Text, Result, ℕ, ◌≡◌, any, ◌⊎◌, text_eq, ◌∙◌, ap,
  arith, subst,
}
use rust_panel.Db.{◌>>=◌, ◌>>◌, Conn, acquire, query, quiet}

module _ (to_string : Value → Option Text) (debug : Text → Text) (host : Host) where
  -- The run of an action: either it was refused for want of an intent, or it ran under one.
  pub record IsUnderIntent (started ended : ℕ) (op : Text) (actor_id : Option ℕ) (action : Action)
      (c : Conn AuditTables) (run : Audited) : Type 0 where
    pub at : Conn AuditTables
    pub begins :
        begin_intent to_string started (spec_of op actor_id action) c
        ≡ (ok (handle_of (spec_of op actor_id action) c.tables), at)
    pub recorded_first : at.tables ≡ begun to_string started (spec_of op actor_id action) c.tables
    pub runs : run.commands ≡ (execute host (request_of op actor_id action)).1
    pub answers : run.returned ≡ answer_of (execute host (request_of op actor_id action)).0
    pub whole :
        (run.conn.tables ≡ at.tables)
        ⊎ (run.conn.tables
            ≡ recorded to_string ended
                (handle_of (spec_of op actor_id action) c.tables)
                (completion_of debug (execute host (request_of op actor_id action)).0)
                at.tables)

  whole_or :
      {E A S : Type 0} (before after : S) (r : Result E A × Conn S)
      → IsWhole before after r
      → (r.1.tables ≡ before) ⊎ (r.1.tables ≡ after)
  whole_or before after (ok a, d) h = inr h
  whole_or before after (err e, d) h = inl h

  under_intent :
      (started ended : ℕ) (op : Text) (actor_id : Option ℕ) (action : Action)
      (c d : Conn AuditTables) (intent : IntentHandle)
      → begin_intent to_string started (spec_of op actor_id action) c ≡ (ok intent, d)
      → IsUnderIntent started ended op actor_id action c
          (run_recorded to_string debug host ended (request_of op actor_id action) intent d)
  under_intent started ended op actor_id action c d intent ran =
      let spec = spec_of op actor_id action in
      let (named, left, new) =
        ensures-ok c (begin_intent-begun to_string started spec c.tables) ran in
      let done = completion_of debug (execute host (request_of op actor_id action)).0 in
      record {
        at = d;
        begins = ran ∙ ap (λ h. (ok h, d)) named;
        recorded_first = left;
        runs = refl;
        answers = refl;
        whole =
            subst
              (λ h.
                ((complete_intent to_string ended intent done d).1.tables ≡ d.tables)
                ⊎ ((complete_intent to_string ended intent done d).1.tables
                    ≡ recorded to_string ended h done d.tables))
              named
              (whole_or _ _ (complete_intent to_string ended intent done d)
                (complete_intent-IsWhole to_string ended intent done d));
      }

  -- a run that starts nothing, for want of an intent
  abbrev pub IsRefused : Audited → Type 0
  IsRefused run = (e : AuditError) × (run.returned ≡ err (audit e)) × (run.commands ≡ [])

  -- Whatever statements fail: either the answer is an error of the audit and nothing was handed to the operating
  -- system, or the intent of the action, with masked parameters, was recorded as pending before; then the
  -- commands and the answer are the runner's, also where the outcome cannot be recorded, and the outcome is
  -- recorded whole or not at all.
  pub execute_audited-IsUnderIntent :
      (started ended : ℕ) (op : Text) (actor_id : Option ℕ) (action : Action) (c : Conn AuditTables)
      → IsRefused (execute_audited to_string debug host started ended op actor_id action c)
        ⊎ IsUnderIntent started ended op actor_id action c
            (execute_audited to_string debug host started ended op actor_id action c)
  unfolding execute_audited
  execute_audited-IsUnderIntent started ended op actor_id action c =
      go (begin_intent to_string started (spec_of op actor_id action) c) refl
    where
      go :
          (r : Result AuditError IntentHandle × Conn AuditTables)
          → begin_intent to_string started (spec_of op actor_id action) c ≡ r
          → IsRefused (run_begun to_string debug host ended (request_of op actor_id action) r)
            ⊎ IsUnderIntent started ended op actor_id action c
                (run_begun to_string debug host ended (request_of op actor_id action) r)
      go (err e, d) same = inl (e, refl, refl)
      go (ok intent, d) same = inr (under_intent started ended op actor_id action c d intent same)

  begin_intent-quiet :
      (now : ℕ) (spec : IntentSpec) (t : AuditTables)
      → any (λ i. text_eq i.operation_id spec.operation_id) t.intents ≡ false
      → begin_intent to_string now spec (quiet t)
        ≡ (ok (handle_of spec t), quiet (begun to_string now spec t))
  unfolding begin_intent begin_intent_conn acquire query ◌>>◌ ◌>>=◌
  begin_intent-quiet now spec t new =
      >>-constrained-quiet _ (unique_operation spec.operation_id)
        (λ t. (tt, insert_intent spec (serialize to_string spec.params) now t)) _ t (ground arith)

  -- the tables after a run whose statements are all answered
  abbrev pub audited : ℕ → ℕ → Text → Option ℕ → Action → AuditTables → AuditTables
  audited started ended op actor_id action t =
      recorded to_string ended (handle_of (spec_of op actor_id action) t)
        (completion_of debug (execute host (request_of op actor_id action)).0)
        (begun to_string started (spec_of op actor_id action) t)

  pub execute_audited-quiet :
      (started ended : ℕ) (op : Text) (actor_id : Option ℕ) (action : Action) (t : AuditTables)
      → any (λ i. text_eq i.operation_id op) t.intents ≡ false
      → (execute_audited to_string debug host started ended op actor_id action (quiet t)).conn
        ≡ quiet (audited started ended op actor_id action t)
  unfolding execute_audited
  execute_audited-quiet started ended op actor_id action t new =
      let spec = spec_of op actor_id action in
      let req = request_of op actor_id action in
      ap (λ r. Audited.conn (run_begun to_string debug host ended req r))
        (begin_intent-quiet started spec t new)
      ∙ ap (λ r. r.1)
          (complete_intent-quiet to_string ended (handle_of spec t)
            (completion_of debug (execute host req).0) (begun to_string started spec t)
            (any-append (λ x. Intent.id x == t.intent_seq + 1) t.intents
                (new_intent spec (serialize to_string spec.params) started (t.intent_seq + 1) ∷ [])
              ∙ ground arith))
