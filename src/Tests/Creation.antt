-- ===== src/Tests/Creation.antt =====
-- The theorems on creating a sandbox, at the toy LXD.
use openshell_driver_lxd.Common.{◌≡◌, refl, String, [], ◌∷◌, none, some, true}
use openshell_driver_lxd.Common.Dict.{Dict, lookup}
use openshell_driver_lxd.Common.Text.{starts_with, split_once}
use openshell_driver_lxd.Common.Decimal.{show, show_onto}
use openshell_driver_lxd.Lxd.{Lxd, Request, Response, get_network}
use openshell_driver_lxd.Lxd.Types.{LxdError, Result, ok, Network}
use openshell_driver_lxd.Lxd.Actions.{World}
use openshell_driver_lxd.Lxd.Quiet.{logged}
use openshell_driver_lxd.Config.{guest_tls, is_some, validate, validate_endpoint, gateway_scheme}
use openshell_driver_lxd.Mapping.Devices.{Placement}
use openshell_driver_lxd.Driver.Scope.{strays}
use openshell_driver_lxd.Driver.Checks.{resolve_gateway_endpoint}
use openshell_driver_lxd.Driver.Checks.Endpoint.{scheme, resolve_gateway_endpoint-scheme}
use openshell_driver_lxd.Driver.Create.{launch, create_and_launch}
use openshell_driver_lxd.Driver.Create.Cleanup.{Launches, launch-cleans_up}
use openshell_driver_lxd.Driver.Create.Extent.{create_and_launch-stays_with_its_instance}
use openshell_driver_lxd.Tests.{Toy, quoted, config, world, sandbox_box}

-- A network with an address of its own.
abbrev bridge : Network
bridge = record { name = "lxdbr0"; type_ = "bridge"; config = ("ipv4.address", "10.0.0.1/24") ∷ [] }

abbrev place : Placement
place = record { network = "lxdbr0"; storage_pool = "pool" }

-- The toy LXD with that network.
abbrev networked_answer : (r : Request) → Toy.State → Result LxdError (Response r) × Toy.State
networked_answer (get_network name) s = (ok bridge, s)
networked_answer r s = Toy.answer r s

abbrev Networked : Lxd
Networked = record Toy { answer = networked_answer }

abbrev start : World Networked
start = record { state = none; calls = []; locks = [] }

resolve_gateway_endpoint-scheme_example :
    starts_with "http://10.0.0.1:8080" (scheme (is_some (guest_tls config))) ≡ true
unfolding validate validate_endpoint guest_tls resolve_gateway_endpoint gateway_scheme lookup
    split_once show show_onto
resolve_gateway_endpoint-scheme_example =
    resolve_gateway_endpoint-scheme quoted config "lxdbr0" bridge "http://10.0.0.1:8080" refl refl

launch-cleans_up_example : Launches quoted config Toy "box" (
    launch quoted config Toy "box" "id-1"
      (("/etc/token", 1 ∷ []) ∷ [])
      (world (some (sandbox_box "Stopped" []))))
launch-cleans_up_example =
    launch-cleans_up quoted config Toy "box" "id-1" (("/etc/token", 1 ∷ []) ∷ [])
      (world (some (sandbox_box "Stopped" [])))

abbrev instance_config : Dict String
instance_config = ("user.openshell.sandbox_id", "id-1") ∷ []

create_and_launch-stays_with_its_instance_example :
    logged
      (strays "box")
      (create_and_launch quoted config Toy "box" "id-1" "image" instance_config []
        ("default" ∷ [])
        []
        (world none)).1
    ≡ logged (strays "box") (world none)
create_and_launch-stays_with_its_instance_example =
    create_and_launch-stays_with_its_instance quoted config Toy "box" "id-1" "image" instance_config
      [] ("default" ∷ []) [] (world none)
