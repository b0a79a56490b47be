-- ===== src/Privileged/Command.antt =====
-- src/privileged/runner.rs: the argument vector of an action, and its execution. The host is a
-- parameter: what the process that a vector starts does within its timeout.

pub mod Literal
pub mod Limits
use rust_panel.Prelude.{
  ℕ, ◌/◌, Bool, false, leb, List, [], ◌∷◌, ◌++◌, Option, none, some, take, Text, codes, byte_len,
  Result, ok, err, ◌>>=◌, if◌then◌else◌,
}
use rust_panel.Prelude.Int.{ℤ}
use rust_panel.Prelude.Decimal.{digits, digits_ℤ}
use rust_panel.Privileged.Action.{
  SystemctlVerb, status, list_units, as_str, Action, iptables_list, ufw_status, iptables_append,
  iptables_delete, iptables_allow_port, systemctl, id, timeout_ms, output_limit, RunnerError,
  rejected, timed_out, spawn, io, unit_required,
}
use rust_panel.Privileged.Validate.{validate_action}

-- what `Command::new` and `arg` gather
pub record Command : Type 0 where
  pub program : Text
  pub args : List Text

abbrev iptables : List Text → Result RunnerError Command
iptables args = ok (record { program = codes "iptables"; args = args })

abbrev systemd : List Text → Result RunnerError Command
systemd args = ok (record { program = codes "systemctl"; args = args })

unfoldable pub build_command : Action → Result RunnerError Command
build_command iptables_list = iptables (codes "-L" ∷ codes "-n" ∷ codes "--line-numbers" ∷ [])
build_command ufw_status = ok (record { program = codes "ufw"; args = codes "status" ∷ [] })
build_command (iptables_append chain args) = iptables (codes "-A" ∷ chain ∷ args)
build_command (iptables_delete chain num) = iptables (codes "-D" ∷ chain ∷ digits_ℤ num ∷ [])
build_command (iptables_allow_port port protocol jump) = iptables (
    codes "-A"
    ∷ codes "INPUT"
    ∷ codes "-p"
    ∷ protocol
    ∷ codes "--dport"
    ∷ digits port
    ∷ codes "-j"
    ∷ jump
    ∷ [])
build_command (systemctl list_units unit) =
    systemd
      (codes "list-units" ∷ codes "--type=service" ∷ codes "--no-pager" ∷ codes "--no-legend" ∷ [])
build_command (systemctl status none) = err (rejected unit_required)
build_command (systemctl status (some unit)) =
    systemd (codes "status" ∷ unit ∷ codes "--no-pager" ∷ codes "--lines=20" ∷ [])
build_command (systemctl other none) = err (rejected unit_required)
build_command (systemctl other (some unit)) = systemd (as_str other ∷ unit ∷ [])

-- the mark that a cut leaves: an ellipsis and a word in brackets
abbrev pub cut_mark : Text
cut_mark = 0x2026 ∷ codes "[truncated]"

unfoldable pub truncate : Text → ℕ → Text
truncate s limit = if leb (byte_len s) limit then s else take limit s ++ cut_mark

pub record RunnerRequest : Type 0 where
  pub operation_id : Text
  pub actor_id : Option ℕ
  pub job_id : Option Text
  pub action : Action

pub record RunnerResult : Type 0 where
  pub operation_id : Text
  pub action_id : Text
  pub exit_code : Option ℤ
  pub stdout : Text
  pub stderr : Text
  pub timed_out : Bool
  pub duration_ms : ℕ
  pub actor_id : Option ℕ
  pub job_id : Option Text

-- What the operating system reports of one process.
pub data HostOutcome : Type 0 where
  spawn_failed : Text → HostOutcome
  wait_failed : Text → HostOutcome
  ran_out_of_time : HostOutcome
  finished : Option ℤ → Text → Text → ℕ → HostOutcome

abbrev pub Host : Type 0
Host = Command → ℕ → HostOutcome

-- the part of `execute` that follows the spawn
unfoldable pub collect : RunnerRequest → HostOutcome → Result RunnerError RunnerResult
collect req (spawn_failed m) = err (spawn m)
collect req (wait_failed m) = err (io m)
collect req ran_out_of_time = err (timed_out (id req.action) (timeout_ms req.action))
collect req (finished code out error ms) = ok (record {
  operation_id = req.operation_id;
  action_id = id req.action;
  exit_code = code;
  stdout = truncate out (output_limit req.action);
  stderr = truncate error (output_limit req.action / 4);
  timed_out = false;
  duration_ms = ms;
  actor_id = req.actor_id;
  job_id = req.job_id;
})

-- `execute`, with the commands that it hands to the operating system
unfoldable pub execute : Host → RunnerRequest → Result RunnerError RunnerResult × List Command
execute host req = elim (validate_action req.action) [
  | err e ↦ (err e, [])
  | ok _ ↦ elim (build_command req.action) [
    | err e ↦ (err e, [])
    | ok cmd ↦ (collect req (host cmd (timeout_ms req.action)), cmd ∷ [])
  ]
]
