-- ===== src/Privileged/Command/Limits.antt =====
-- The caps on a command's output and running time.
use rust_panel.Privileged.Validate.Admissible.{validate_action_iff}
use rust_panel.Privileged.Command.Literal.{
  execute-refused, build_command-IsLiteral, execute_of_built,
}
use rust_panel.Privileged.Validate.{validate_action}
use rust_panel.Prelude.{
  inl, inr, Result-cases, byte_len_bounds, length-take, ap, length-append, take, sym, ◌∙◌,
}
use rust_panel.Privileged.Action.{output_limit, id, timeout_ms}
use rust_panel.Prelude.{Text, ℕ, length, ◌≤◌, ◌+◌, ◌≡◌, ok, arith, ◌/◌}
use rust_panel.Privileged.Command.{
  execute, truncate, Text, collect, Host, RunnerRequest, RunnerResult, cut_mark, output_limit,
  HostOutcome, finished, validate_action,
}

-- `truncate` keeps at most the limit in characters, and the mark of a cut.
length-truncate : (s : Text) (limit : ℕ) → length (truncate s limit) ≤ limit + length cut_mark
unfolding truncate
length-truncate s limit =
    ground (arith, byte_len_bounds s, length-take limit s, length-append (take limit s) cut_mark)

-- The cut of a result's outputs.
collect-output_bound :
    (req : RunnerRequest) (o : HostOutcome) (r : RunnerResult)
    → collect req o ≡ ok r
    → (length r.stdout ≤ output_limit req.action + 12)
      × (length r.stderr ≤ output_limit req.action / 4 + 12)
      × (r.action_id ≡ id req.action)
      × (r.operation_id ≡ req.operation_id)
unfolding collect
collect-output_bound req (finished code out error ms) r h = ground (
  arith,
  length-truncate out (output_limit req.action),
  length-truncate error (output_limit req.action / 4),
)
collect-output_bound req _ r h = cc

-- A result that is no error names the action and the operation that were asked for; its standard
-- output holds at most the action's limit in characters and its standard error a quarter of it, each
-- with the twelve characters of the mark of a cut.
pub execute-output_bound :
    (host : Host) (req : RunnerRequest) (r : RunnerResult)
    → (execute host req).0 ≡ ok r
    → (length r.stdout ≤ output_limit req.action + 12)
      × (length r.stderr ≤ output_limit req.action / 4 + 12)
      × (r.action_id ≡ id req.action)
      × (r.operation_id ≡ req.operation_id)
execute-output_bound host req r h = elim (Result-cases (validate_action req.action)) [
  | inr (e, refused) ↦ cc (ap (λ x. x.0) (execute-refused host req e refused))
  | inl (u, passed) ↦
      let (c, built, literal) =
        build_command-IsLiteral req.action ((validate_action_iff req.action).0 passed) in
      collect-output_bound req (host c (timeout_ms req.action)) r
        (sym (ap (λ x. x.0) (execute_of_built host req c passed built)) ∙ h)
]
