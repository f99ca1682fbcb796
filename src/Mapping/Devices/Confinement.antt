-- ===== src/Mapping/Devices/Confinement.antt =====
-- crates/openshell-driver-lxd/src/mapping.rs: what the devices of a sandbox let it reach.
use openshell_driver_lxd.Common.{String, ◌≡◌, refl, Option, none, some, Bool, true, false}
use openshell_driver_lxd.Common.Dict.{Dict, lookup, insert}
use openshell_driver_lxd.Mapping.Devices.{Placement, build_create_devices}

-- A disk that the guest cannot write.
abbrev pub ReadOnly : Option (Dict String) → Type 0
ReadOnly none = ⊥
ReadOnly (some device) = lookup "readonly" device ≡ some "true"

-- A NIC on a network behind an ACL, which rejects what the ACL does not allow, both ways.
abbrev pub Behind : String → String → Option (Dict String) → Type 0
Behind network acl none = ⊥
Behind network acl (some device) =
    (lookup "network" device ≡ some network)
    × (lookup "security.acls" device ≡ some acl)
    × (lookup "security.acls.default.egress.action" device ≡ some "reject")
    × (lookup "security.acls.default.ingress.action" device ≡ some "reject")

-- With an egress ACL, with or without a GPU: the NIC is on the placement's network behind that ACL,
-- and the volumes of the supervisor and of the DHCP client are read-only.
pub build_create_devices-confined :
    (placement : Placement) (acl : String) (gpu : Bool)
    (supervisor_pool supervisor_volume dhcp_client_pool dhcp_client_volume : String)
    → let devices =
        build_create_devices placement
          (some acl)
          gpu
          supervisor_pool
          supervisor_volume
          dhcp_client_pool
          dhcp_client_volume in
      Behind placement.network acl (lookup "eth0" devices)
      × ReadOnly (lookup "supervisor" devices)
      × ReadOnly (lookup "dhcp-client" devices)
unfolding build_create_devices lookup insert
build_create_devices-confined placement acl true sp sv dp dv =
    ((refl, refl, refl, refl), refl, refl)
build_create_devices-confined placement acl false sp sv dp dv =
    ((refl, refl, refl, refl), refl, refl)
