-- ===== src/Privileged/Examples.antt =====
-- The theorems on the privileged runner at concrete actions and rules.
use rust_panel.Privileged.Validate.{is_unit_char}
use rust_panel.Privileged.Command.{collect, truncate}
use rust_panel.Prelude.{starts_with, text_eq}
use rust_panel.Privileged.Command.Limits.{execute-output_bound}
use rust_panel.Privileged.Validate.Admissible.{Admissible, IsArg, validate_action_iff}
use rust_panel.Prelude.Int.{pos}
use rust_panel.Privileged.Validate.Tokens.{join, tokenize_iptables_rule_iff}
use rust_panel.Privileged.Validate.{
  tokenize_iptables_rule, validate_action, validate_chain, validate_unit, is_shell_meta,
  reject_shell_meta, is_iptables_char, split_whitespace, split_from,
}
use rust_panel.Privileged.Command.Literal.{Started, execute-Started}
use rust_panel.Privileged.Command.{
  Host, RunnerRequest, RunnerResult, execute, build_command, finished,
}
use rust_panel.Privileged.Action.{Action, systemctl, output_limit, restart, id}
use rust_panel.Prelude.{
  refl, [], ◌∷◌, none, some, ok, false, List, byte_len, length, Text, codes, ◌≡◌, ◌≤◌, arith, ◌↔◌,
  All, is_empty, ◌+◌, ◌/◌,
}

abbrev restart_nginx : Action
restart_nginx = systemctl restart (some (codes "nginx.service"))

abbrev rule : List Text
rule = codes "-p" ∷ codes "tcp" ∷ codes "-j" ∷ codes "ACCEPT" ∷ []

abbrev request : RunnerRequest
request = record {
  operation_id = codes "op-1";
  actor_id = some 1;
  job_id = none;
  action = restart_nginx;
}

-- a host on which every process ends at once
abbrev host : Host
host command timeout = finished (some (pos 0)) (codes "done") [] 3

validate_action_iff_example : (validate_action restart_nginx ≡ ok tt) ↔ Admissible restart_nginx
validate_action_iff_example = validate_action_iff restart_nginx

execute-Started_example : Started restart_nginx (execute host request).1
execute-Started_example = execute-Started host request

abbrev result : RunnerResult
result = record {
  operation_id = codes "op-1";
  action_id = codes "systemctl.restart";
  exit_code = some (pos 0);
  stdout = codes "done";
  stderr = [];
  timed_out = false;
  duration_ms = 3;
  actor_id = some 1;
  job_id = none;
}

executed : (execute host request).0 ≡ ok result
unfolding execute build_command validate_action validate_unit reject_shell_meta byte_len
    is_shell_meta is_unit_char starts_with collect id truncate output_limit
executed = refl

execute-output_bound_example :
    (length result.stdout ≤ output_limit restart_nginx + 12)
    × (length result.stderr ≤ output_limit restart_nginx / 4 + 12)
    × (result.action_id ≡ id restart_nginx)
    × (result.operation_id ≡ codes "op-1")
execute-output_bound_example = execute-output_bound host request result executed

tokenize_iptables_rule_iff_example : (tokenize_iptables_rule (join rule) ≡ ok rule) ↔ (
    (byte_len (join rule) ≤ 1024)
    × (rule ≡ split_whitespace (join rule))
    × (is_empty rule ≡ false)
    × All IsArg rule)
tokenize_iptables_rule_iff_example = tokenize_iptables_rule_iff (join rule) rule

legal : All IsArg rule
unfolding byte_len is_shell_meta is_iptables_char
legal = ground arith

short : byte_len (join rule) ≤ 1024
unfolding byte_len
short = omega arith

input_chain : validate_chain (codes "INPUT") ≡ ok tt
unfolding validate_chain reject_shell_meta byte_len is_shell_meta text_eq
input_chain = refl

tokens : tokenize_iptables_rule (join rule) ≡ ok rule
tokens = (tokenize_iptables_rule_iff (join rule) rule).1 (short, words, refl, legal)
  where
    words : rule ≡ split_whitespace (join rule)
    words = unfold split_whitespace split_from in refl
