-- ===== src/Driver/Delete.antt =====
-- crates/openshell-driver-lxd/src/driver.rs: `delete_sandbox`.
use openshell_driver_lxd.Common.{String, Option, none, some, true}
use openshell_driver_lxd.Common.{nat_eq, string_eq, if◌then◌else◌}
use openshell_driver_lxd.Common.Dict.{lookup}
use openshell_driver_lxd.Lxd.Types.{LxdError, Result, ok, err, Instance, Operation}
use openshell_driver_lxd.Lxd.{Lxd, get_instance, stop_instance, delete_instance, is_missing}
use openshell_driver_lxd.Lxd.Actions.{
  Action, pure, raise, attempt, ◌>>=◌, ◌>>◌, try_send, take_lock, drop_lock,
}
use openshell_driver_lxd.Errors.{DriverError, lxd}
use openshell_driver_lxd.Config.{Config, pos}
use openshell_driver_lxd.Mapping.{key_sandbox_id}
use openshell_driver_lxd.Driver.{means_stopped, is_already_stopped, await_operation}

module _ (debug : String → String) (c : Config) (L : Lxd) where
  -- `delete_sandbox` once the instance is down: the deletion, and the end of its lock.
  abbrev pub deleted : String → String → Result LxdError Operation → Action L (Option String)
  deleted name sandbox_id (ok op) = do
    await_operation debug c L op.id
    drop_lock name
    pure (some sandbox_id)
  deleted name sandbox_id (err e) = if is_missing e then pure none else raise (lxd e)

  unfoldable pub delete_stopped : String → String → Action L (Option String)
  delete_stopped name sandbox_id = do r ← try_send (delete_instance name); deleted name sandbox_id r

  abbrev pub after_wait : String → String → Result DriverError (Unit {0}) → Action L (Option String)
  after_wait name sandbox_id (ok _) = delete_stopped name sandbox_id
  after_wait name sandbox_id (err e) =
      if means_stopped e then delete_stopped name sandbox_id else raise e

  abbrev pub after_stop : String → String → Result LxdError Operation → Action L (Option String)
  after_stop name sandbox_id (ok op) = do
    r ← attempt (await_operation debug c L op.id)
    after_wait name sandbox_id r
  after_stop name sandbox_id (err e) =
      if is_already_stopped e
      then delete_stopped name sandbox_id
      else if is_missing e
      then pure none
      else raise (lxd e)

  abbrev pub delete_found : String → Result LxdError Instance → Action L (Option String)
  delete_found name (ok i) = elim (lookup key_sandbox_id i.config) [
    | none ↦ pure none
    | some sandbox_id ↦ do
      r ← try_send (stop_instance name true (pos 0))
      after_stop name sandbox_id r
  ]
  delete_found name (err e) = if is_missing e then pure none else raise (lxd e)

  unfoldable pub delete_sandbox : String → Action L (Option String)
  delete_sandbox name = do take_lock name; r ← try_send (get_instance name); delete_found name r
