-- ===== src/Mapping.antt =====
-- crates/openshell-driver-lxd/src/mapping.rs: observed instances as sandboxes. `to_driver_sandbox`
-- and the condition that it reports.
pub mod Condition
pub mod Request
pub mod Devices
pub mod Config
use openshell_driver_lxd.Common.{
  ℕ, String, ◌<>◌, List, [], ◌∷◌, Option, none, some, Bool, true, false,
}
use openshell_driver_lxd.Common.{◌&&◌, ◌||◌, not, ◌==◌, string_eq, if◌then◌else◌}
use openshell_driver_lxd.Common.Text.{is_empty}
use openshell_driver_lxd.Common.Dict.{Dict, lookup, contains_key}
use openshell_driver_lxd.Lxd.Types.{Instance}

abbrev pub key_sandbox_id : String
key_sandbox_id = "user.openshell.sandbox_id"

abbrev pub key_namespace : String
key_namespace = "user.openshell.namespace"

abbrev pub key_workspace : String
key_workspace = "user.openshell.workspace"

abbrev pub key_stop_intent : String
key_stop_intent = "user.openshell.stop_intent"

abbrev pub key_last_power : String
key_last_power = "volatile.last_state.power"

abbrev pub condition_exited : String
condition_exited = "ContainerExited"

abbrev pub condition_runtime_restart : String
condition_runtime_restart = "ContainerRuntimeRestart"

abbrev pub condition_stopped : String
condition_stopped = "ContainerStopped"

abbrev pub condition_created : String
condition_created = "ContainerCreated"

abbrev pub condition_starting : String
condition_starting = "ContainerStarting"

abbrev pub condition_paused : String
condition_paused = "ContainerPaused"

-- `lxd_client::DEFAULT_PROJECT`
abbrev pub default_project : String
default_project = "default"

pub data StopSeen : Type 0 where
  discovered live : StopSeen

pub record DriverCondition : Type 0 where
  pub type_ : String
  pub status : String
  pub reason : String
  pub message : String
  pub last_transition_time : String

-- `DriverSandboxStatus`
pub record SandboxStatus : Type 0 where
  pub sandbox_name : String
  pub instance_id : String
  pub agent_fd : String
  pub sandbox_fd : String
  pub conditions : List DriverCondition
  pub deleting : Bool

-- A `DriverSandbox` as an observation: its `spec` is unset.
pub record Observation : Type 0 where
  pub id : String
  pub name : String
  pub namespace : String
  pub workspace : String
  pub status : SandboxStatus

unfoldable pub stopped_by_the_runtime : Instance → Bool
stopped_by_the_runtime i =
    i.status == "Stopped"
    && (not (contains_key i.config key_stop_intent)
        && elim (lookup key_last_power i.config) [ none ↦ false | some power ↦ power == "RUNNING" ])

unfoldable pub lxc_target : Instance → String
lxc_target i =
    if is_empty i.project || i.project == default_project
    then i.name
    else i.name <> (" --project " <> i.project)

-- The arms of `ready_condition`, in its order.
pub data Arm : Type 0 where
  ready created stopped runtime_restart exited starting frozen error unrecognized : Arm

abbrev pub is_discovered : StopSeen → Bool
is_discovered discovered = true
is_discovered live = false

-- Which arm of `ready_condition` an instance takes.
unfoldable pub arm : Instance → StopSeen → Arm
arm i seen =
    if i.status == "Running" || i.status == "Ready"
    then ready
    else if i.status == "Stopped"
    then (if not (contains_key i.config key_last_power)
        then created
        else if contains_key i.config key_stop_intent
        then stopped
        else if is_discovered seen && stopped_by_the_runtime i
        then runtime_restart
        else exited)
    else if i.status == "Starting"
    then starting
    else if i.status == "Frozen"
    then frozen
    else if i.status == "Error"
    then error
    else unrecognized

-- The status, reason and message of each arm. `{other:?}` in the last arm is Rust's debug form of a
-- text, the parameter `debug`.
abbrev pub status_text : Arm → String
status_text ready = "True"
status_text unrecognized = "Unknown"
status_text _ = "False"

abbrev pub reason_text : Arm → String
reason_text ready = ""
reason_text created = condition_created
reason_text stopped = condition_stopped
reason_text runtime_restart = condition_runtime_restart
reason_text exited = condition_exited
reason_text starting = condition_starting
reason_text frozen = condition_paused
reason_text error = "Error"
reason_text unrecognized = "Unknown"

unfoldable pub message_text : (String → String) → Instance → Arm → String
message_text debug i ready = ""
message_text debug i created = "sandbox instance is created but has not started yet"
message_text debug i stopped = "sandbox instance was stopped on request"
message_text debug i runtime_restart =
    "LXD stopped the running sandbox instance (daemon or host shutdown) and has not started it again"
message_text debug i exited =
    "sandbox supervisor exited and the instance stopped; its output is in `lxc console "
    <> (lxc_target i <> " --show-log`")
message_text debug i starting = "sandbox instance is starting"
message_text debug i frozen = "sandbox instance is frozen"
message_text debug i error =
    "LXD reports the sandbox instance in an error state; see `lxc info "
    <> (lxc_target i <> " --show-log`")
message_text debug i unrecognized = "LXD reports unrecognized instance status " <> debug i.status

unfoldable pub ready_condition : (String → String) → Instance → StopSeen → DriverCondition
ready_condition debug i seen = record {
  type_ = "Ready";
  status = status_text (arm i seen);
  reason = reason_text (arm i seen);
  message = message_text debug i (arm i seen);
  last_transition_time = "";
}

abbrev unwrap_or_default : Option String → String
unwrap_or_default none = ""
unwrap_or_default (some s) = s

unfoldable pub to_driver_sandbox : (String → String) → Instance → StopSeen → Observation
to_driver_sandbox debug i seen = record {
  id = unwrap_or_default (lookup key_sandbox_id i.config);
  name = i.name;
  namespace = unwrap_or_default (lookup key_namespace i.config);
  workspace = unwrap_or_default (lookup key_workspace i.config);
  status = record {
    sandbox_name = i.name;
    instance_id = i.name;
    agent_fd = "";
    sandbox_fd = "";
    conditions = ready_condition debug i seen ∷ [];
    deleting = false;
  };
}

unfoldable pub instance_to_driver_sandbox : (String → String) → Instance → Observation
instance_to_driver_sandbox debug i = to_driver_sandbox debug i discovered

unfoldable pub instance_to_driver_sandbox_live : (String → String) → Instance → Observation
instance_to_driver_sandbox_live debug i = to_driver_sandbox debug i live
