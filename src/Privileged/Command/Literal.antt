-- ===== src/Privileged/Command/Literal.antt =====
-- What reaches the operating system: literal arguments of three known programs.
use rust_panel.Prelude.{
  ℕ, suc, ◌≡◌, ◌⊎◌, refl, inl, inr, true, false, List, [], ◌∷◌, none, some, all, any, is_empty, All,
  All-map, Text, codes, text_eq, one_of, ok, err, arith, Result-cases, ap,
}
use rust_panel.Prelude.Int.{ℤ, pos, negsuc}
use rust_panel.Prelude.Decimal.{is_digit, digits, digits-all, digits-nonempty, digits_ℤ}
use rust_panel.Privileged.Action.{
  Action, iptables_list, ufw_status, iptables_append, iptables_delete, iptables_allow_port,
  systemctl, status, list_units, as_str, RunnerError, timeout_ms,
}
use rust_panel.Privileged.Validate.{is_shell_meta, validate_action}
use rust_panel.Privileged.Validate.Admissible.{
  IsToken, IsUnit, Admissible, plain_units, validate_action_iff,
}
use rust_panel.Privileged.Command.{Command, build_command, RunnerRequest, Host, execute, collect}

-- An argument that a shell would pass on unchanged: not empty, and free of metacharacters.
abbrev pub IsLiteral : Text → Type 0
IsLiteral t = (is_empty t ≡ false) × (any is_shell_meta t ≡ false)

abbrev pub IsLiteralCommand : Command → Type 0
IsLiteralCommand c =
    (one_of (codes "iptables" ∷ codes "ufw" ∷ codes "systemctl" ∷ []) c.program ≡ true)
    × All IsLiteral c.args

digit_plain : (t : Text) → all is_digit t ≡ true → any is_shell_meta t ≡ false
unfolding is_shell_meta
digit_plain [] h = refl
digit_plain (c ∷ t) h = ground (arith, digit_plain t)

digits-IsLiteral : (n : ℕ) → IsLiteral (digits n)
digits-IsLiteral n =
    (nonempty (digits n) (digits-nonempty n), digit_plain (digits n) (digits-all n))
  where
    nonempty : (t : Text) → ¬ (t ≡ []) → is_empty t ≡ false
    nonempty [] h = absurd (h refl)
    nonempty (c ∷ t) h = refl

digits_ℤ-IsLiteral : (z : ℤ) → IsLiteral (digits_ℤ z)
unfolding digits_ℤ is_shell_meta
digits_ℤ-IsLiteral (pos n) = digits-IsLiteral n
digits_ℤ-IsLiteral (negsuc n) = (refl, (digits-IsLiteral (suc n)).1)

IsToken-IsLiteral : (t : Text) → IsToken t → IsLiteral t
IsToken-IsLiteral t h = (h.nonempty, h.plain)

IsUnit-IsLiteral : (t : Text) → IsUnit t → IsLiteral t
IsUnit-IsLiteral t h = ground (arith, plain_units t)

-- The vector of an admissible action can be built, starts a known program and holds literals only.
pub build_command-IsLiteral :
    (a : Action) → Admissible a → (c : Command) × (build_command a ≡ ok c) × IsLiteralCommand c
unfolding build_command text_eq is_shell_meta as_str
build_command-IsLiteral iptables_list h = (_, refl, ground arith)
build_command-IsLiteral ufw_status h = (_, refl, ground arith)
build_command-IsLiteral (iptables_append chain args) (chained, h) = (
  _,
  refl,
  (
    refl,
    (
      (refl, refl),
      (IsToken-IsLiteral chain chained.0, All-map args (λ t p. IsToken-IsLiteral t p.0) h),
    ),
  ),
)
build_command-IsLiteral (iptables_delete chain num) (chained, h) = (
  _,
  refl,
  (refl, ((refl, refl), (IsToken-IsLiteral chain chained.0, (digits_ℤ-IsLiteral num, tt)))),
)
build_command-IsLiteral (iptables_allow_port port protocol jump) (p, j) = (
  _,
  refl,
  ground (arith, IsToken-IsLiteral protocol p.0, digits-IsLiteral port, IsToken-IsLiteral jump j.0),
)
build_command-IsLiteral (systemctl list_units none) h = (_, refl, ground arith)
build_command-IsLiteral (systemctl list_units (some unit)) h = absurd h
build_command-IsLiteral (systemctl status (some unit)) h =
    (_, refl, (refl, ((refl, refl), (IsUnit-IsLiteral unit h, ((refl, refl), ((refl, refl), tt))))))
build_command-IsLiteral (systemctl verb (some unit)) h =
    (_, refl, (refl, ((refl, refl), (IsUnit-IsLiteral unit h, tt))))
build_command-IsLiteral (systemctl verb none) h = absurd h

-- A passed action whose vector is built is handed to the host, once, with its own timeout.
pub execute_of_built :
    (host : Host) (req : RunnerRequest) (c : Command)
    → validate_action req.action ≡ ok tt
    → build_command req.action ≡ ok c
    → execute host req ≡ (collect req (host c (timeout_ms req.action)), c ∷ [])
unfolding execute
execute_of_built host req c passed built = rw (passed, execute) (rw built)

-- If the checks refuse, `execute` answers with their error whatever the host, and starts nothing.
pub execute-refused :
    (host : Host) (req : RunnerRequest) (e : RunnerError)
    → validate_action req.action ≡ err e
    → execute host req ≡ (err e, [])
unfolding execute
execute-refused host req e h = rw (h, execute)

-- What `execute` hands to the operating system: nothing, or one command of an action that passed.
abbrev pub Started : Action → List Command → Type 0
Started a cs =
    (cs ≡ [])
    ⊎ ((c : Command) × (cs ≡ c ∷ []) × (build_command a ≡ ok c) × IsLiteralCommand c × Admissible a)

-- Whatever the host does, `execute` starts either nothing or exactly one command, and then the action
-- is admissible, the command is the one built for it, its program is iptables, ufw or systemctl, and
-- each of its arguments is nonempty and free of shell metacharacters.
pub execute-Started : (host : Host) (req : RunnerRequest) → Started req.action (execute host req).1
unfolding execute
execute-Started host req = elim (Result-cases (validate_action req.action)) [
  | inr (e, refused) ↦ inl (ap (λ r. r.1) (execute-refused host req e refused))
  | inl (u, passed) ↦
      let allowed = (validate_action_iff req.action).0 passed in
      let (c, built, literal) = build_command-IsLiteral req.action allowed in
      inr (c, ap (λ r. r.1) (execute_of_built host req c passed built), built, literal, allowed)
]
