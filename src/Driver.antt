-- ===== src/Driver.antt =====
-- crates/openshell-driver-lxd/src/driver.rs: what the methods share. `debug` is the debug form of a
-- text, `{name:?}`. A method that holds a lifecycle lock is one action: what other tasks
-- and LXD do meanwhile is in the answers of the daemon, which may change between any two calls.
pub mod Reads
pub mod Start
pub mod Stop
pub mod Delete
pub mod Scope
pub mod Create
pub mod Checks
pub mod Lifecycle
pub mod DeleteTrace
pub mod Listing
pub mod Settling
pub mod StopTrace
pub mod Ownership
pub mod Garbage
use openshell_driver_lxd.Common.{
  ℕ, zero, suc, ◌+◌, String, ◌<>◌, List, [], ◌∷◌, ◌++◌, Option, none, some, Bool, true, false,
}
use openshell_driver_lxd.Common.{
  not, ◌&&◌, ◌||◌, ◌==◌, nat_eq, string_eq, if◌then◌else◌, length, get_elem?, keep, find,
}
use openshell_driver_lxd.Common.Text.{contains_text, eq_ignore_ascii_case}
use openshell_driver_lxd.Common.Dict.{Dict, lookup, contains_key}
use openshell_driver_lxd.Lxd.Types.{
  LxdError, api, operation_failed, invalid_quantity, io, hyper, http, json, tls, web_socket, Result,
  ok, err, Instance, Operation,
}
use openshell_driver_lxd.Lxd.{
  Lxd, get_instance, list_instances, start_instance, stop_instance, patch_instance_config,
  delete_instance, push_file_into_instance, wait_operation, is_missing,
}
use openshell_driver_lxd.Lxd.Actions.{
  Action, pure, raise, attempt, ◌>>=◌, ◌>>◌, try_send, send, sleep, read_file, take_lock, drop_lock,
}
use openshell_driver_lxd.Errors.{DriverError, lxd, timeout, not_found, failed_precondition}
use openshell_driver_lxd.Config.{Config, I64, pos, GuestTls, guest_tls}
use openshell_driver_lxd.Mapping.{
  Observation, key_sandbox_id, key_stop_intent, condition_stopped, stopped_by_the_runtime,
  instance_to_driver_sandbox,
}
use openshell_driver_lxd.Mapping.Config.{guest_tls_ca_path, guest_tls_cert_path, guest_tls_key_path}

-- The text that tells that an instance was stopped already.
abbrev pub stop_message : LxdError → Option String
stop_message (api code message) = if code == 400 then some message else none
stop_message (operation_failed description e) = some e
stop_message _ = none

unfoldable pub is_already_stopped : LxdError → Bool
is_already_stopped e = elim (stop_message e) [
  | none ↦ false
  | some message ↦ contains_text message "not running" || contains_text message "already stopped"
]

abbrev pub settle_delay : ℕ
settle_delay = 3000

abbrev pub runtime_restart_settle : ℕ
runtime_restart_settle = 2250

abbrev pub is_managed : Instance → Bool
is_managed i = contains_key i.config key_sandbox_id

abbrev pub has_id : String → Instance → Bool
has_id sandbox_id i = elim (lookup key_sandbox_id i.config) [
  | none ↦ false
  | some id ↦ id == sandbox_id
]

abbrev pub means_stopped : DriverError → Bool
means_stopped (lxd e) = is_already_stopped e
means_stopped _ = false

module _ (debug : String → String) where
  abbrev pub missing : String → DriverError
  missing name = not_found ("sandbox " <> (debug name <> " not found"))

module _ (debug : String → String) (c : Config) (L : Lxd) where
  abbrev pub finished : Option Operation → Action L (Unit {0})
  finished none = raise timeout
  finished (some op) = pure tt

  -- `wait_operation`: a deadline that passes is `DriverError::Timeout`.
  unfoldable pub await_operation : String → Action L (Unit {0})
  await_operation id = do op ← send (wait_operation id c.operation_timeout_secs); finished op

  abbrev pub managed : String → Result LxdError Instance → Action L Instance
  managed name (ok i) = if is_managed i then pure i else raise (missing debug name)
  managed name (err e) = if is_missing e then raise (missing debug name) else raise (lxd e)

  unfoldable pub get_managed_instance : String → Action L Instance
  get_managed_instance name = do r ← try_send (get_instance name); managed name r

  unfoldable pub set_stop_intent : String → Action L (Unit {0})
  set_stop_intent name = do
    try_send (patch_instance_config name ((key_stop_intent, some condition_stopped) ∷ []))
    pure tt

  unfoldable pub clear_stop_intent : String → Action L (Unit {0})
  clear_stop_intent name = do
    try_send (patch_instance_config name ((key_stop_intent, none) ∷ []))
    pure tt

  abbrev pub start_and_wait : String → Action L (Unit {0})
  start_and_wait name = do op ← send (start_instance name); await_operation op.id
