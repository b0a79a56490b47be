-- ===== src/Audit/Audited.antt =====
-- src/privileged/audited.rs: an action runs only under a recorded intent, and its outcome is recorded after.
-- The host, the `Debug` form of a text, and `to_string` of serde_json are parameters. The fields of a `json!`
-- object are listed by key, the order of the map.
pub mod Ordered
pub mod Classified
use rust_panel.Privileged.Message.{runner_rejected, runner_message}
use rust_panel.Privileged.Action.{
  as_str, timed_out, iptables_list, ufw_status, iptables_append, iptables_delete,
  iptables_allow_port, systemctl,
}
use rust_panel.Prelude.Int.{eq_ℤ, pos}
use rust_panel.Prelude.Decimal.{digits, digits_ℤ}
use rust_panel.Prelude.Map.{or_else}
use rust_panel.Audit.Intents.{Completion, begin_intent, complete_intent}
use rust_panel.Privileged.Command.{Host, RunnerResult, Command, RunnerRequest, execute}
use rust_panel.Privileged.Action.{
  Action, RunnerError, Reason, systemctl, forbidden_characters, timed_out, id, invalid_chain,
  iptables_append, invalid_unit_name, spawn, io, unsupported_protocol, iptables_delete,
  unsupported_jump, token_rejected, arg_rejected, iptables_allow_port,
}
use rust_panel.Audit.Tables.{
  AuditError, refused, rejected, unavailable, IntentSpec, AuditTables, IntentHandle, success,
  failure, timeout, rejection,
}
use rust_panel.Audit.Mask.{
  Value, Items, null, object, no_fields, no_items, string, item, field, array, number,
}
use rust_panel.Prelude.{
  [], ◌∷◌, none, some, ok, err, true, false, Bool, List, Option, Result, Text, ℕ, if◌then◌else◌,
}
use rust_panel.Db.{◌>>=◌, ◌>>◌, Conn}
use rust_panel.Prelude.{codes, ◌++◌, map}

pub data AuditedError : Type 0 where
  audit : AuditError → AuditedError
  runner : RunnerError → AuditedError

-- `AuditedError::is_rejected`
unfoldable pub is_rejected : AuditedError → Bool
is_rejected (audit (refused m)) = true
is_rejected (audit (unavailable m)) = false
is_rejected (runner e) = runner_rejected e

-- `AuditedError::is_unavailable`
unfoldable pub is_unavailable : AuditedError → Bool
is_unavailable (audit (unavailable m)) = true
is_unavailable _ = false

abbrev pub strings : List Text → Items
strings [] = no_items
strings (t ∷ ts) = item (string t) (strings ts)

abbrev pub unit_value : Option Text → Value
unit_value none = null
unit_value (some unit) = string unit

unfoldable pub action_params : Action → Value
action_params iptables_list = object no_fields
action_params ufw_status = object no_fields
action_params (iptables_append chain args) =
    object
      (field (codes "args") (array (strings args)) (field (codes "chain") (string chain) no_fields))
action_params (iptables_delete chain num) =
    object
      (field (codes "chain") (string chain) (field (codes "num") (number (digits_ℤ num)) no_fields))
action_params (iptables_allow_port port protocol jump) = object (
    field (codes "jump") (string jump) (
      field (codes "port") (number (digits port))
        (field (codes "protocol") (string protocol) no_fields)))
action_params (systemctl verb unit) =
    object (
      field (codes "unit") (unit_value unit)
        (field (codes "verb") (string (as_str verb)) no_fields))

unfoldable pub resource_for : Action → Option Text
resource_for (systemctl verb unit) = some (codes "service:" ++ or_else unit (codes "*"))
resource_for _ = some (codes "firewall")

-- The request and the intent of an action, under a fresh operation id.
abbrev pub request_of : Text → Option ℕ → Action → RunnerRequest
request_of op actor_id action = record {
  operation_id = op;
  actor_id = actor_id;
  job_id = none;
  action = action;
}

abbrev pub spec_of : Text → Option ℕ → Action → IntentSpec
spec_of op actor_id action = record {
  operation_id = op;
  actor_id = actor_id;
  request_id = none;
  action = id action;
  resource = resource_for action;
  params = action_params action;
  ip = none;
}

-- what is recorded of a result of the runner
unfoldable pub completion_of : (Text → Text) → Result RunnerError RunnerResult → Completion
completion_of debug (ok result) = record {
  outcome = elim result.exit_code [
    | some code ↦ if eq_ℤ code (pos 0) then success else failure
    | none ↦ failure
  ];
  exit_code = result.exit_code;
  detail = object (
      field (codes "stderr") (string result.stderr)
        (field (codes "stdout") (string result.stdout) no_fields));
  duration_ms = some result.duration_ms;
}
completion_of debug (err (timed_out action ms)) = record {
  outcome = timeout;
  exit_code = none;
  detail = object (field (codes "timeout_ms") (number (digits ms)) no_fields);
  duration_ms = some ms;
}
completion_of debug (err e) = record {
  outcome = if runner_rejected e then rejection else failure;
  exit_code = none;
  detail = object (field (codes "error") (string (runner_message debug e)) no_fields);
  duration_ms = none;
}

abbrev pub answer_of : Result RunnerError RunnerResult → Result AuditedError RunnerResult
answer_of (ok r) = ok r
answer_of (err e) = err (runner e)

-- What a call of `execute_audited` does: its answer, the commands that it handed to the operating system, and
-- the connection that it leaves.
pub record Audited : Type 0 where
  pub returned : Result AuditedError RunnerResult
  pub commands : List Command
  pub conn : Conn AuditTables

-- `execute_audited`, with the clock at the start and at the end. An error of `complete_intent` is logged only.
module _ (to_string : Value → Option Text) (debug : Text → Text) (host : Host) where
  -- the part that follows the intent
  abbrev pub run_recorded : ℕ → RunnerRequest → IntentHandle → Conn AuditTables → Audited
  run_recorded ended req intent c =
      let (result, commands) = execute host req in
      record {
        returned = answer_of result;
        commands = commands;
        conn = (complete_intent to_string ended intent (completion_of debug result) c).1;
      }

  abbrev pub run_begun :
      ℕ → RunnerRequest → Result AuditError IntentHandle × Conn AuditTables → Audited
  run_begun ended req (err e, d) = record { returned = err (audit e); commands = []; conn = d }
  run_begun ended req (ok intent, d) = run_recorded ended req intent d

  unfoldable pub execute_audited : ℕ → ℕ → Text → Option ℕ → Action → Conn AuditTables → Audited
  execute_audited started ended op actor_id action c =
      run_begun ended (request_of op actor_id action)
        (begin_intent to_string started (spec_of op actor_id action) c)
