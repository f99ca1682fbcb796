-- ===== src/Driver/Stop.antt =====
-- crates/openshell-driver-lxd/src/driver.rs: `stop_sandbox`.
use openshell_driver_lxd.Common.{String, true, false}
use openshell_driver_lxd.Common.{nat_eq, string_eq, if◌then◌else◌}
use openshell_driver_lxd.Common.Text.{eq_ignore_ascii_case}
use openshell_driver_lxd.Lxd.Types.{LxdError, Result, ok, err, Instance, Operation}
use openshell_driver_lxd.Lxd.{Lxd, stop_instance}
use openshell_driver_lxd.Lxd.Actions.{
  Action, pure, raise, attempt, ◌>>=◌, ◌>>◌, try_send, send, take_lock,
}
use openshell_driver_lxd.Errors.{DriverError, lxd}
use openshell_driver_lxd.Config.{Config, pos}
use openshell_driver_lxd.Driver.{
  means_stopped, is_already_stopped, await_operation, get_managed_instance, set_stop_intent,
  clear_stop_intent,
}

module _ (debug : String → String) (c : Config) (L : Lxd) where
  -- The forced stop, once the graceful one has failed.
  abbrev pub forced_wait : String → Result DriverError (Unit {0}) → Action L (Unit {0})
  forced_wait name (ok _) = pure tt
  forced_wait name (err e) =
      if means_stopped e then pure tt else (clear_stop_intent debug c L name >> raise e)

  abbrev pub forced_answer : String → Result LxdError Operation → Action L (Unit {0})
  forced_answer name (ok op) = do r ← attempt (await_operation debug c L op.id); forced_wait name r
  forced_answer name (err e) =
      if is_already_stopped e then pure tt else (clear_stop_intent debug c L name >> raise (lxd e))

  unfoldable pub force_stop : String → Action L (Unit {0})
  force_stop name = do r ← try_send (stop_instance name true (pos 0)); forced_answer name r

  unfoldable pub graceful_stop : String → Action L (Unit {0})
  graceful_stop name = do
    op ← send (stop_instance name false c.stop_timeout_secs)
    await_operation debug c L op.id

  abbrev pub after_graceful : String → Result DriverError (Unit {0}) → Action L (Unit {0})
  after_graceful name (ok _) = pure tt
  after_graceful name (err e) = if means_stopped e then pure tt else force_stop name

  abbrev pub stop_found : String → Instance → Action L (Unit {0})
  stop_found name i =
      if eq_ignore_ascii_case i.status "Stopped"
      then pure tt
      else (set_stop_intent debug c L name
          >> (attempt (graceful_stop name) >>= λ r. after_graceful name r))

  unfoldable pub stop_sandbox : String → Action L (Unit {0})
  stop_sandbox name = do take_lock name; i ← get_managed_instance debug c L name; stop_found name i
