-- ===== src/Privileged/Validate/Admissible.antt =====
-- What the checks accept, stated without the order of the checks, and that they decide it.
use rust_panel.Prelude.{
  ◌==◌, ℕ, ◌≤◌, ◌≡◌, ◌↔◌, ◌⊎◌, refl, Bool, true, false, not, ◌&&◌, ◌||◌, List, [], ◌∷◌, none, some,
  all, any, is_empty, All, Text, codes, byte_len, is_ascii_alnum, to_ascii_lowercase, one_of,
  char_in, starts_with, ok, arith,
}
use rust_panel.Prelude.Int.{lt_one}
use rust_panel.Privileged.Action.{
  Action, iptables_list, ufw_status, iptables_append, iptables_delete, iptables_allow_port,
  systemctl, list_units,
}
use rust_panel.Privileged.Validate.{
  chains, protocols, jumps, is_shell_meta, reject_shell_meta, is_chain_char, validate_chain,
  is_unit_char, validate_unit, validate_protocol, validate_jump, is_iptables_char, check_args,
  validate_action,
}

-- An argument that no shell reads as more than one word: not empty, short, free of metacharacters.
pub record IsToken (t : Text) : Type 0 where
  pub nonempty : is_empty t ≡ false
  pub short : byte_len t ≤ 256
  pub plain : any is_shell_meta t ≡ false

pub reject_shell_meta_iff : (t : Text) → (reject_shell_meta t ≡ ok tt) ↔ IsToken t
unfolding reject_shell_meta
reject_shell_meta_iff t = ground arith

abbrev pub IsArg : Text → Type 0
IsArg t = IsToken t × (all is_iptables_char t ≡ true)

check_args_iff : (args : List Text) → (check_args args ≡ ok tt) ↔ All IsArg args
unfolding check_args
check_args_iff [] = ground arith
check_args_iff (a ∷ args) = ground (arith, check_args_iff args, reject_shell_meta_iff a)

abbrev pub IsChain : Text → Type 0
IsChain t =
    IsToken t × ((one_of chains t ≡ true) ⊎ ((all is_chain_char t ≡ true) × (byte_len t ≤ 64)))

pub validate_chain_iff : (t : Text) → (validate_chain t ≡ ok tt) ↔ IsChain t
unfolding validate_chain
validate_chain_iff t = ground (arith, reject_shell_meta_iff t)

abbrev pub IsProtocol : Text → Type 0
IsProtocol t = IsToken t × (one_of protocols (to_ascii_lowercase t) ≡ true)

pub validate_protocol_iff : (t : Text) → (validate_protocol t ≡ ok tt) ↔ IsProtocol t
unfolding validate_protocol
validate_protocol_iff t = ground (arith, reject_shell_meta_iff t)

abbrev pub IsJump : Text → Type 0
IsJump t = IsToken t × (one_of jumps t ≡ true)

pub validate_jump_iff : (t : Text) → (validate_jump t ≡ ok tt) ↔ IsJump t
unfolding validate_jump
validate_jump_iff t = ground (arith, reject_shell_meta_iff t)

-- a unit's name: at most 128 bytes of letters, digits and `@ . _ - :`, not starting with a dot
abbrev pub is_plain_unit_char : ℕ → Bool
is_plain_unit_char c = is_ascii_alnum c || char_in (codes "@._-:") c

pub record IsUnit (t : Text) : Type 0 where
  pub nonempty : is_empty t ≡ false
  pub short : byte_len t ≤ 128
  pub plain : all is_plain_unit_char t ≡ true
  pub no_dot : starts_with (codes ".") t ≡ false

plain_unit_char : (c : ℕ) → is_plain_unit_char c ≡ (is_unit_char c && not (is_shell_meta c))
unfolding is_unit_char is_shell_meta
plain_unit_char c = ground arith

pub plain_units :
    (t : Text) → all is_plain_unit_char t ≡ (all is_unit_char t && not (any is_shell_meta t))
plain_units [] = refl
plain_units (c ∷ t) = ground (arith, plain_unit_char c, plain_units t)

no_slash : (t : Text) → all is_plain_unit_char t ≡ true → any (λ c. c == b'/') t ≡ false
no_slash [] h = refl
no_slash (c ∷ t) h = ground (arith, no_slash t)

-- The check of a unit's name, with its metacharacter, backslash and slash tests, is this short rule.
pub validate_unit_iff : (t : Text) → (validate_unit t ≡ ok tt) ↔ IsUnit t
unfolding validate_unit reject_shell_meta
validate_unit_iff t = ground (arith, plain_units t, no_slash t)

abbrev pub Admissible : Action → Type 0
Admissible iptables_list = Unit
Admissible ufw_status = Unit
Admissible (iptables_append chain args) = IsChain chain × All IsArg args
Admissible (iptables_delete chain num) = IsChain chain × (lt_one num ≡ false)
Admissible (iptables_allow_port port protocol jump) = IsProtocol protocol × IsJump jump
Admissible (systemctl list_units none) = Unit
Admissible (systemctl list_units (some unit)) = ⊥
Admissible (systemctl verb none) = ⊥
Admissible (systemctl verb (some unit)) = IsUnit unit

-- An action passes the checks exactly when it is admissible: the firewall commands with a legal chain
-- and legal arguments, a rule number of at least 1, a protocol and a jump target of the tables;
-- `list-units` without a unit, and every other verb with the name of a unit.
pub validate_action_iff : (a : Action) → (validate_action a ≡ ok tt) ↔ Admissible a
unfolding validate_action
validate_action_iff iptables_list = ground arith
validate_action_iff ufw_status = ground arith
validate_action_iff (iptables_append chain args) =
    ground (arith, validate_chain_iff chain, check_args_iff args)
validate_action_iff (iptables_delete chain num) = ground (arith, validate_chain_iff chain)
validate_action_iff (iptables_allow_port port protocol jump) =
    ground (arith, validate_protocol_iff protocol, validate_jump_iff jump)
validate_action_iff (systemctl list_units none) = ground arith
validate_action_iff (systemctl list_units (some unit)) = ground arith
validate_action_iff (systemctl verb none) = ground arith
validate_action_iff (systemctl verb (some unit)) = validate_unit_iff unit
