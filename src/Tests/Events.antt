-- ===== src/Tests/Events.antt =====
-- The theorems on the watcher, at the toy LXD.
use openshell_driver_lxd.Common.{◌≡◌, String, [], ◌∷◌, none, some}
use openshell_driver_lxd.Common.Dict.{Dict, lookup, last}
use openshell_driver_lxd.Lxd.Types.{ok}
use openshell_driver_lxd.Watcher.{Event, Watcher, handle_all, reconcile_and_seed_sandbox_ids}
use openshell_driver_lxd.Watcher.Recent.{Fair, handle_all-BlamesNobody}
use openshell_driver_lxd.Watcher.Known.{reconcile-lookup}
use openshell_driver_lxd.Tests.{Toy, quoted, world, sandbox_box}

abbrev shutdown : Event
shutdown = record {
  timestamp = "2026-01-01T00:00:00Z";
  metadata = record {
    text = "{}";
    action = some "instance-shutdown";
    name = none;
    source = some "/1.0/instances/box?project=sandboxes";
  };
}

abbrev idle : Watcher
idle = record { known = ("box", "id-1") ∷ []; recent = []; sent = [] }

handle_all-BlamesNobody_example :
    Fair quoted Toy
      (handle_all quoted Toy idle (ok shutdown ∷ []) (world (some (sandbox_box "Stopped" [])))).0
handle_all-BlamesNobody_example =
    handle_all-BlamesNobody quoted Toy idle (ok shutdown ∷ [])
      (world (some (sandbox_box "Stopped" []))) tt

abbrev ids : Dict String
ids = ("box", "id-1") ∷ ("crate", "id-2") ∷ []

reconcile-lookup_example :
    lookup "box" (reconcile_and_seed_sandbox_ids ids [] (("box", "id-3") ∷ [])).0
    ≡ elim (last {V = String} "box" (("box", "id-3") ∷ [])) [
      | some id ↦ some id
      | none ↦ last {V = String} "box" []
    ]
reconcile-lookup_example = reconcile-lookup "box" ids [] (("box", "id-3") ∷ [])
