-- ===== src/Privileged/Action.antt =====
-- src/privileged/action.rs: the closed list of privileged actions, and `RunnerError` of runner.rs.
-- An `i32` rule number is its sign and its magnitude, by the two constructors of ℤ.
use rust_panel.Prelude.{ℕ, ◌*◌, List, Option, Text, codes}
use rust_panel.Prelude.Int.{ℤ}

pub data SystemctlVerb : Type 0 where
  start stop restart status list_units : SystemctlVerb

-- `SystemctlVerb::as_str`
unfoldable pub as_str : SystemctlVerb → Text
as_str start = codes "start"
as_str stop = codes "stop"
as_str restart = codes "restart"
as_str status = codes "status"
as_str list_units = codes "list-units"

pub data Action : Type 0 where
  iptables_list : Action
  ufw_status : Action
  iptables_append : Text → List Text → Action
  iptables_delete : Text → ℤ → Action
  iptables_allow_port : ℕ → Text → Text → Action
  systemctl : SystemctlVerb → Option Text → Action

-- `Action::id`
unfoldable pub id : Action → Text
id iptables_list = codes "iptables.list"
id ufw_status = codes "ufw.status"
id (iptables_append chain args) = codes "iptables.append"
id (iptables_delete chain num) = codes "iptables.delete"
id (iptables_allow_port port protocol jump) = codes "iptables.allow_port"
id (systemctl start unit) = codes "systemctl.start"
id (systemctl stop unit) = codes "systemctl.stop"
id (systemctl restart unit) = codes "systemctl.restart"
id (systemctl status unit) = codes "systemctl.status"
id (systemctl list_units unit) = codes "systemctl.list_units"

-- `Action::timeout_ms`
unfoldable pub timeout_ms : Action → ℕ
timeout_ms (systemctl start unit) = 60000
timeout_ms (systemctl stop unit) = 60000
timeout_ms (systemctl restart unit) = 60000
timeout_ms (systemctl _ unit) = 30000
timeout_ms _ = 15000

-- `Action::output_limit`
unfoldable pub output_limit : Action → ℕ
output_limit iptables_list = 512 * 1024
output_limit (systemctl list_units unit) = 512 * 1024
output_limit (systemctl status unit) = 256 * 1024
output_limit _ = 64 * 1024

-- What a rejection says: a constructor for each message, with the text that is printed in it.
pub data Reason : Type 0 where
  empty_argument argument_too_long : Reason
  forbidden_characters : Text → Reason
  invalid_chain : Text → Reason
  invalid_unit : Reason
  invalid_unit_name : Text → Reason
  unit_like_path : Reason
  unsupported_protocol : Text → Reason
  unsupported_jump : Text → Reason
  rule_too_long : Reason
  token_rejected : Text → Reason
  no_tokens : Reason
  arg_rejected : Text → Reason
  rule_number_below_one unit_not_taken unit_required : Reason

-- `RunnerError`; the texts of the operating system's errors are kept as they come.
pub data RunnerError : Type 0 where
  rejected : Reason → RunnerError
  timed_out : Text → ℕ → RunnerError
  spawn : Text → RunnerError
  io : Text → RunnerError
