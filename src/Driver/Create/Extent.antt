-- ===== src/Driver/Create/Extent.antt =====
-- crates/openshell-driver-lxd/src/driver.rs, `create_sandbox`: what its end may touch.
use openshell_driver_lxd.Common.{ℕ, String, List, ◌≡◌, false, string_eq}
use openshell_driver_lxd.Common.Dict.{Dict}
use openshell_driver_lxd.Lxd.{Lxd, create_instance}
use openshell_driver_lxd.Lxd.Types.{LxdError, Result, ok, err, Operation}
use openshell_driver_lxd.Lxd.Actions.{World, send}
use openshell_driver_lxd.Lxd.Quiet.{Quiet, logged, quiet_rules, Quiet-bind, Quiet-send}
use openshell_driver_lxd.Errors.{DriverError}
use openshell_driver_lxd.Config.{Config}
use openshell_driver_lxd.Driver.{await_operation}
use openshell_driver_lxd.Driver.Start.{settle_after_start}
use openshell_driver_lxd.Driver.Scope.{strays, same_name}
use openshell_driver_lxd.Driver.Lifecycle.{
  await-Quiet, push_guest_files-Quiet, start_and_wait-Quiet, settle-Quiet,
}
use openshell_driver_lxd.Driver.Create.{
  stop_answer, cleanup, post_create, after_post_create, launch, create_and_launch,
}

module _ (debug : String → String) (c : Config) (L : Lxd) (name : String) where
  stop_answer-Quiet :
      (r : Result LxdError Operation) → Quiet (strays name) (stop_answer debug c L r)
  stop_answer-Quiet (ok op) = search (quiet_rules, await-Quiet)
  stop_answer-Quiet (err e) = search quiet_rules

  cleanup-Quiet : Quiet (strays name) (cleanup debug c L name)
  unfolding cleanup
  cleanup-Quiet = search (quiet_rules, same_name, stop_answer-Quiet, await-Quiet)

  settle_after_start-Quiet :
      (id : String) → Quiet (strays name) (settle_after_start debug c L name id)
  unfolding settle_after_start
  settle_after_start-Quiet id = search (quiet_rules, settle-Quiet)

  post_create-Quiet :
      (id : String) (files : List (String × List ℕ))
      → Quiet (strays name) (post_create debug c L name id files)
  unfolding post_create
  post_create-Quiet id files =
      search (quiet_rules, push_guest_files-Quiet, start_and_wait-Quiet, settle_after_start-Quiet)

  after_post_create-Quiet :
      (r : Result DriverError (Unit {0})) → Quiet (strays name) (after_post_create debug c L name r)
  after_post_create-Quiet (ok _) = search quiet_rules
  after_post_create-Quiet (err e) = search (quiet_rules, cleanup-Quiet)

  launch-Quiet :
      (id : String) (files : List (String × List ℕ))
      → Quiet (strays name) (launch debug c L name id files)
  unfolding launch
  launch-Quiet id files = search (quiet_rules, post_create-Quiet, after_post_create-Quiet)

-- Whatever LXD answers, creating an instance, bringing it up and cleaning up after a failure make no
-- call that changes anything in LXD but that instance.
pub create_and_launch-stays_with_its_instance :
    (debug : String → String) (c : Config) (L : Lxd) (name id image_alias : String)
    (config : Dict String) (devices : Dict (Dict String)) (profiles : List String)
    (files : List (String × List ℕ)) (w : World L)
    → logged
        (strays name)
        (create_and_launch debug c L name id image_alias config devices profiles files w).1
      ≡ logged (strays name) w
unfolding create_and_launch
create_and_launch-stays_with_its_instance debug c L name id image_alias config devices profiles
      files w =
    (Quiet-bind (send (create_instance name image_alias config devices profiles false)) _
        (Quiet-send {p = strays name}
          (create_instance name image_alias config devices profiles false) (same_name name))
        λ op.
          Quiet-bind (await_operation debug c L op.id) _ (await-Quiet debug c L name op.id)
            λ _. launch-Quiet debug c L name id files).at
      w
