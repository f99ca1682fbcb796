-- ===== src/Tests/Runs.antt =====
-- Runs of the driver's methods one after another, at the toy LXD.
use openshell_driver_lxd.Common.{◌≡◌, refl, String, List, [], ◌∷◌, none, some, map}
use openshell_driver_lxd.Common.Dict.{lookup, insert}
use openshell_driver_lxd.Common.Text.{eq_ignore_ascii_case}
use openshell_driver_lxd.Lxd.Types.{Result, ok, err}
use openshell_driver_lxd.Lxd.Actions.{
  ◌>>=◌, ◌>>◌, pure, attempt, try_send, send, take_lock, drop_lock,
}
use openshell_driver_lxd.Errors.{DriverError}
use openshell_driver_lxd.Mapping.{
  Observation, DriverCondition, condition_stopped, stopped_by_the_runtime, arm, ready_condition,
  to_driver_sandbox, instance_to_driver_sandbox,
}
use openshell_driver_lxd.Driver.{get_managed_instance, await_operation, set_stop_intent}
use openshell_driver_lxd.Driver.Reads.{get_sandbox, confirm_runtime_restart}
use openshell_driver_lxd.Driver.Stop.{stop_sandbox, graceful_stop}
use openshell_driver_lxd.Driver.Delete.{delete_sandbox, delete_stopped}
use openshell_driver_lxd.Tests.{Toy, quoted, config, world, sandbox_box, patched}

abbrev reasons : Result DriverError Observation → List String
reasons (ok o) = map (λ (d : DriverCondition). d.reason) o.status.conditions
reasons (err e) = []

-- A sandbox that is stopped on request reports that.
stop_then_get :
    reasons
      ((stop_sandbox quoted config Toy "box" >> get_sandbox quoted config Toy "box")
        (world (some (sandbox_box "Running" (("volatile.last_state.power", "RUNNING") ∷ []))))).0
    ≡ condition_stopped ∷ []
unfolding stop_sandbox get_sandbox get_managed_instance confirm_runtime_restart graceful_stop
    await_operation set_stop_intent stopped_by_the_runtime instance_to_driver_sandbox
    to_driver_sandbox ready_condition arm lookup insert eq_ignore_ascii_case patched pure attempt
    try_send send take_lock ◌>>=◌
stop_then_get = refl

-- A second deletion finds nothing.
delete_twice :
    ((delete_sandbox quoted config Toy "box" >> delete_sandbox quoted config Toy "box")
      (world (some (sandbox_box "Running" [])))).0
    ≡ ok none
unfolding delete_sandbox delete_stopped await_operation lookup pure attempt try_send send take_lock
    drop_lock ◌>>=◌
delete_twice = refl
