-- ===== src/Privileged/Message.antt =====
-- src/privileged/runner.rs and validate.rs: the text of an error. The `Debug` form of a text is a parameter.
use rust_panel.Prelude.Decimal.{digits}
use rust_panel.Prelude.{true, false, Text, Bool, codes, ◌++◌}
use rust_panel.Privileged.Action.{
  empty_argument, argument_too_long, forbidden_characters, invalid_chain, invalid_unit,
  invalid_unit_name, unit_like_path, unsupported_protocol, unsupported_jump, rule_too_long,
  token_rejected, no_tokens, arg_rejected, rule_number_below_one, unit_not_taken, unit_required,
  rejected, timed_out, spawn, io, RunnerError, Reason,
}

-- the text of a rejection: `Rejected(String)`
unfoldable pub reason_text : (Text → Text) → Reason → Text
reason_text debug empty_argument = codes "empty argument"
reason_text debug argument_too_long = codes "argument too long"
reason_text debug (forbidden_characters t) =
    codes "argument contains forbidden characters: " ++ debug t
reason_text debug (invalid_chain t) = codes "invalid iptables chain: " ++ t
reason_text debug invalid_unit = codes "invalid systemd unit name"
reason_text debug (invalid_unit_name t) = codes "invalid systemd unit name: " ++ t
reason_text debug unit_like_path = codes "systemd unit must not look like a path"
reason_text debug (unsupported_protocol t) = codes "unsupported protocol: " ++ t
reason_text debug (unsupported_jump t) = codes "unsupported jump target: " ++ t
reason_text debug rule_too_long = codes "iptables rule too long"
reason_text debug (token_rejected t) = codes "iptables token rejected: " ++ debug t
reason_text debug no_tokens = codes "iptables rule has no tokens"
reason_text debug (arg_rejected t) = codes "iptables arg rejected: " ++ debug t
reason_text debug rule_number_below_one = codes "iptables rule number must be >= 1"
reason_text debug unit_not_taken = codes "list-units does not take a unit name"
reason_text debug unit_required = codes "systemd unit name required"

-- `RunnerError::message`
unfoldable pub runner_message : (Text → Text) → RunnerError → Text
runner_message debug (rejected r) = reason_text debug r
runner_message debug (timed_out action ms) =
    codes "action " ++ action ++ codes " timed out after " ++ digits ms ++ codes "ms"
runner_message debug (spawn m) = m
runner_message debug (io m) = m

-- `RunnerError::is_rejected`
unfoldable pub runner_rejected : RunnerError → Bool
runner_rejected (rejected r) = true
runner_rejected _ = false
