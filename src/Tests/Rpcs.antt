-- ===== src/Tests/Rpcs.antt =====
-- The theorems on the RPCs, at the toy LXD.
use openshell_driver_lxd.Common.{◌≡◌, refl, [], ◌∷◌, some}
use openshell_driver_lxd.Lxd.{list_instances}
use openshell_driver_lxd.Common.Dict.{lookup}
use openshell_driver_lxd.Grpc.{
  Target, start_sandbox_rpc, stop_sandbox_rpc, get_sandbox_rpc, delete_sandbox_rpc,
}
use openshell_driver_lxd.Grpc.Addressing.{named, listed, rpc-by_id}
use openshell_driver_lxd.Grpc.Absent.{IsAbsent, rpc-unknown_id}
use openshell_driver_lxd.Tests.{Toy, quoted, config, world, sandbox_box}

abbrev by_id : Target
by_id = record { sandbox_name = ""; sandbox_id = "id-1" }

abbrev of_other_id : Target
of_other_id = record { sandbox_name = ""; sandbox_id = "id-2" }

rpc-by_id_example :
    let w = world (some (sandbox_box "Running" [])) in
    (start_sandbox_rpc quoted config Toy by_id w
      ≡ start_sandbox_rpc quoted config Toy (named "box") (listed quoted config Toy w))
    × (stop_sandbox_rpc quoted config Toy by_id w
        ≡ stop_sandbox_rpc quoted config Toy (named "box") (listed quoted config Toy w))
    × (get_sandbox_rpc quoted config Toy by_id w
        ≡ get_sandbox_rpc quoted config Toy (named "box") (listed quoted config Toy w))
    × (delete_sandbox_rpc quoted config Toy by_id w
        ≡ delete_sandbox_rpc quoted config Toy (named "box") (listed quoted config Toy w))
unfolding lookup
rpc-by_id_example =
    rpc-by_id quoted config Toy by_id (world (some (sandbox_box "Running" [])))
      (sandbox_box "Running" [] ∷ []) (sandbox_box "Running" []) refl refl refl refl refl

rpc-unknown_id_example :
    IsAbsent quoted config Toy list_instances of_other_id (world (some (sandbox_box "Running" [])))
unfolding lookup
rpc-unknown_id_example =
    rpc-unknown_id quoted config Toy of_other_id (world (some (sandbox_box "Running" [])))
      (sandbox_box "Running" [] ∷ []) refl refl refl refl
