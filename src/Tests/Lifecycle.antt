-- ===== src/Tests/Lifecycle.antt =====
-- The theorems on the driver's methods, at the toy LXD.
use openshell_driver_lxd.Common.{◌≡◌, refl, ◌≤◌, ◌+◌, [], ◌∷◌, none, some, length}
use openshell_driver_lxd.Common.Dict.{lookup}
use openshell_driver_lxd.Common.Text.{eq_ignore_ascii_case}
use openshell_driver_lxd.Lxd.Types.{ok, err, Instance}
use openshell_driver_lxd.Lxd.Quiet.{logged}
use openshell_driver_lxd.Driver.{missing}
use openshell_driver_lxd.Driver.Reads.{get_sandbox}
use openshell_driver_lxd.Driver.Start.{start_sandbox}
use openshell_driver_lxd.Driver.Stop.{stop_sandbox}
use openshell_driver_lxd.Driver.Delete.{delete_sandbox, delete_stopped}
use openshell_driver_lxd.Driver.DeleteTrace.{Owned, gone, delete_sandbox-some}
use openshell_driver_lxd.Lxd.{get_instance}
use openshell_driver_lxd.Lxd.Actions.{pure, attempt, try_send, send, take_lock, drop_lock, ◌>>=◌}
use openshell_driver_lxd.Driver.{await_operation}
use openshell_driver_lxd.Driver.Scope.{writes, strays}
use openshell_driver_lxd.Driver.Lifecycle.{lifecycle-stays_with_its_instance}
use openshell_driver_lxd.Driver.Ownership.{Refuses, foreign-left_alone}
use openshell_driver_lxd.Driver.StopTrace.{marked, Stops, stop_sandbox-trace}
use openshell_driver_lxd.Driver.Settling.{is_start, start_sandbox-starts}
use openshell_driver_lxd.Tests.{Toy, quoted, config, world, sandbox_box}

abbrev running : Instance
running = sandbox_box "Running" []

abbrev stopped : Instance
stopped = sandbox_box "Stopped" (("volatile.last_state.power", "RUNNING") ∷ [])

lifecycle-stays_with_its_instance_example :
    let w = world (some stopped) in
    (logged (strays "box") (start_sandbox quoted config Toy "box" w).1 ≡ logged (strays "box") w)
    × (logged (strays "box") (stop_sandbox quoted config Toy "box" w).1 ≡ logged (strays "box") w)
    × (logged (strays "box") (delete_sandbox quoted config Toy "box" w).1 ≡ logged (strays "box") w)
lifecycle-stays_with_its_instance_example =
    lifecycle-stays_with_its_instance quoted config Toy "box" (world (some stopped))

abbrev other_owner : Instance
other_owner = record running { config = [] }

foreign-left_alone_example :
    let w = world (some other_owner) in
    Refuses quoted config Toy "box"
      (get_sandbox quoted config Toy "box")
      (err (missing quoted "box"))
      w
    × Refuses quoted config Toy "box"
        (start_sandbox quoted config Toy "box")
        (err (missing quoted "box"))
        w
    × Refuses quoted config Toy "box"
        (stop_sandbox quoted config Toy "box")
        (err (missing quoted "box"))
        w
    × Refuses quoted config Toy "box" (delete_sandbox quoted config Toy "box") (ok none) w
unfolding lookup
foreign-left_alone_example =
    foreign-left_alone quoted config Toy "box" (world (some other_owner)) refl

stop_sandbox-trace_example :
    let w = world (some running) in
    Stops quoted config Toy "box"
      (marked quoted config Toy "box" (some running) w)
      (stop_sandbox quoted config Toy "box" w)
      (logged writes w)
unfolding lookup eq_ignore_ascii_case
stop_sandbox-trace_example =
    stop_sandbox-trace quoted config Toy "box" (world (some running)) running (some running) refl
      refl refl

start_sandbox-starts_example :
    let w = world (some stopped) in
    length (logged is_start (start_sandbox quoted config Toy "box" w).1)
    ≤ config.start_retries + 1 + length (logged is_start w)
start_sandbox-starts_example = start_sandbox-starts quoted config Toy "box" (world (some stopped))

delete_sandbox-some_example :
    let w = world (some running) in
    Owned quoted config Toy "box" "id-1" (Toy.answer (get_instance "box") w.state).0
    × (logged writes (delete_sandbox quoted config Toy "box" w).1
        ≡ gone quoted config Toy "box" "id-1" (logged writes w))
unfolding delete_sandbox delete_stopped await_operation lookup pure attempt try_send send take_lock
    drop_lock ◌>>=◌
delete_sandbox-some_example =
    delete_sandbox-some quoted config Toy "box" "id-1" (world (some running)) refl
