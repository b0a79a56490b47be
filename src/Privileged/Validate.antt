-- ===== src/Privileged/Validate.antt =====
-- src/privileged/validate.rs: the checks of an action's arguments before anything is spawned.
pub mod Admissible
pub mod Tokens
use rust_panel.Prelude.{
  ℕ, Bool, true, false, not, ◌&&◌, ◌||◌, ltb, leb, ◌==◌, List, [], ◌∷◌, ◌++◌, Option, none, some,
  is_empty, all, any, Text, codes, byte_len, is_ascii_alnum, to_ascii_lowercase, one_of, char_in,
  is_whitespace, contains, starts_with, Result, ok, err, ◌>>=◌, ◌>>◌, fail_if, if◌then◌else◌,
}
use rust_panel.Prelude.Int.{ℤ, lt_one}
use rust_panel.Privileged.Action.{
  SystemctlVerb, list_units, Action, iptables_list, ufw_status, iptables_append, iptables_delete,
  iptables_allow_port, systemctl, RunnerError, rejected, Reason, empty_argument, argument_too_long,
  forbidden_characters, invalid_chain, invalid_unit, invalid_unit_name, unit_like_path,
  unsupported_protocol, unsupported_jump, rule_too_long, token_rejected, no_tokens, arg_rejected,
  rule_number_below_one, unit_not_taken, unit_required,
}

abbrev pub Checked : Type 0
Checked = Result RunnerError (Unit {0})

abbrev pub chains : List Text
chains =
    codes "INPUT" ∷ codes "OUTPUT" ∷ codes "FORWARD" ∷ codes "PREROUTING" ∷ codes "POSTROUTING" ∷ []

abbrev pub protocols : List Text
protocols = codes "tcp" ∷ codes "udp" ∷ codes "icmp" ∷ codes "all" ∷ []

abbrev pub jumps : List Text
jumps = codes "ACCEPT" ∷ codes "DROP" ∷ codes "REJECT" ∷ codes "RETURN" ∷ codes "LOG" ∷ []

-- the characters that `reject_shell_meta` refuses: ; | & $ ` \n \r \0 ( ) < > ' " \ { } \t, a space
abbrev pub shell_meta : Text
shell_meta =
    b';' ∷ b'|' ∷ b'&' ∷ b'$' ∷ b'`' ∷ 10 ∷ 13 ∷ 0 ∷ b'(' ∷ b')' ∷ b'<' ∷ b'>' ∷ 39 ∷ 34 ∷ 92 ∷ b'{'
    ∷ b'}' ∷ 9 ∷ b' ' ∷ []

unfoldable pub is_shell_meta : ℕ → Bool
is_shell_meta = char_in shell_meta

unfoldable pub reject_shell_meta : Text → Checked
reject_shell_meta token =
    if is_empty token
    then err (rejected empty_argument)
    else if ltb 256 (byte_len token)
    then err (rejected argument_too_long)
    else if any is_shell_meta token
    then err (rejected (forbidden_characters token))
    else ok tt

unfoldable pub is_chain_char : ℕ → Bool
is_chain_char c = is_ascii_alnum c || c == b'_'

unfoldable pub validate_chain : Text → Checked
validate_chain chain = do
  reject_shell_meta chain
  if one_of chains chain
      then ok tt
      else if all is_chain_char chain && leb (byte_len chain) 64
      then ok tt
      else err (rejected (invalid_chain chain))

-- the backslash is 92
unfoldable pub is_unit_char : ℕ → Bool
is_unit_char c = is_ascii_alnum c || char_in (b'@' ∷ b'.' ∷ b'_' ∷ b'-' ∷ 92 ∷ b':' ∷ []) c

unfoldable pub validate_unit : Text → Checked
validate_unit unit = do
  reject_shell_meta unit
  fail_if (is_empty unit || ltb 128 (byte_len unit)) (rejected invalid_unit)
  fail_if (not (all is_unit_char unit)) (rejected (invalid_unit_name unit))
  fail_if (any (λ c. c == b'/') unit || starts_with (codes ".") unit) (rejected unit_like_path)
  ok tt

unfoldable pub validate_protocol : Text → Checked
validate_protocol protocol = do
  reject_shell_meta protocol
  if one_of protocols (to_ascii_lowercase protocol)
      then ok tt
      else err (rejected (unsupported_protocol protocol))

unfoldable pub validate_jump : Text → Checked
validate_jump jump = do
  reject_shell_meta jump
  if one_of jumps jump then ok tt else err (rejected (unsupported_jump jump))

-- the iptables flag and value characters, of a token and of an argument
unfoldable pub is_iptables_char : ℕ → Bool
is_iptables_char c =
    is_ascii_alnum c
    || char_in (b'-' ∷ b'_' ∷ b'.' ∷ b'/' ∷ b':' ∷ b'=' ∷ b'*' ∷ b',' ∷ b'!' ∷ b'+' ∷ []) c

-- `split_whitespace`: the maximal runs of characters that are no white space
abbrev pub flush : Text → List Text → List Text
flush [] words = words
flush (c ∷ cur) words = (c ∷ cur) ∷ words

unfoldable pub split_from : Text → Text → List Text
split_from cur [] = flush cur []
split_from cur (c ∷ s) =
    let closed = flush cur (split_from [] s) in
    let longer = split_from (cur ++ c ∷ []) s in if is_whitespace c then closed else longer

unfoldable pub split_whitespace : Text → List Text
unfolding split_from
split_whitespace s = split_from [] s

-- the loop of `tokenize_iptables_rule`, with the vector that it pushes to
unfoldable pub push_tokens : List Text → List Text → Result RunnerError (List Text)
push_tokens args [] = ok args
push_tokens args (part ∷ parts) =
    let rest = push_tokens (args ++ part ∷ []) parts in
    reject_shell_meta part
    >> fail_if (not (all is_iptables_char part)) (rejected (token_rejected part))
    >> rest

unfoldable pub tokenize_iptables_rule : Text → Result RunnerError (List Text)
tokenize_iptables_rule rule = do
  fail_if (ltb 1024 (byte_len rule)) (rejected rule_too_long)
  args ← push_tokens [] (split_whitespace rule)
  fail_if (is_empty args) (rejected no_tokens)
  ok args

-- the loop over the arguments of an append
unfoldable pub check_args : List Text → Checked
check_args [] = ok tt
check_args (arg ∷ args) =
    let rest = check_args args in
    reject_shell_meta arg
    >> fail_if (not (all is_iptables_char arg)) (rejected (arg_rejected arg))
    >> rest

unfoldable pub validate_action : Action → Checked
validate_action iptables_list = ok tt
validate_action ufw_status = ok tt
validate_action (iptables_append chain args) = do validate_chain chain; check_args args; ok tt
validate_action (iptables_delete chain num) = do
  validate_chain chain
  fail_if (lt_one num) (rejected rule_number_below_one)
  ok tt
validate_action (iptables_allow_port port protocol jump) = do
  validate_protocol protocol
  validate_jump jump
  ok tt
validate_action (systemctl list_units none) = ok tt
validate_action (systemctl list_units (some unit)) = err (rejected unit_not_taken)
validate_action (systemctl verb none) = err (rejected unit_required)
validate_action (systemctl verb (some unit)) = validate_unit unit
