-- ===== src/Mapping/Devices.antt =====
-- crates/openshell-driver-lxd/src/mapping.rs: where a sandbox is placed (`Placement`), and the devices
-- of its instance (`build_create_devices`).
pub mod Confinement
use openshell_driver_lxd.Common.{String, List, [], ◌∷◌, Option, none, some, Bool, true, false}
use openshell_driver_lxd.Common.Dict.{Dict, insert}
use openshell_driver_lxd.Mapping.Request.{Template}
use openshell_driver_lxd.Mapping.Config.{struct_get_str}

abbrev pub guest_supervisor_bin_dir : String
guest_supervisor_bin_dir = "/opt/openshell/bin"

abbrev pub guest_dhcp_client_dir : String
guest_dhcp_client_dir = "/opt/openshell/net"

pub record Placement : Type 0 where
  pub network : String
  pub storage_pool : String

abbrev or_default : Option String → String → String
or_default none d = d
or_default (some s) d = s

-- `Placement::resolve`
unfoldable pub resolve : Template → String → String → Placement
resolve template default_network default_storage_pool = record {
  network = or_default (struct_get_str template.driver_config "network") default_network;
  storage_pool =
      or_default (struct_get_str template.driver_config "storage_pool") default_storage_pool;
}

abbrev pub restricted : Option String → Dict String → Dict String
restricted none eth0 = eth0
restricted (some acl) eth0 =
    insert "security.acls.default.ingress.action" "reject"
      (insert "security.acls.default.egress.action" "reject" (insert "security.acls" acl eth0))

-- A read-only disk: a volume of a pool at a path of the guest.
abbrev pub volume_disk : String → String → String → Dict String
volume_disk pool volume path =
    insert "readonly" "true"
      (insert "path" path (insert "source" volume (insert "pool" pool (insert "type" "disk" []))))

abbrev pub with_gpu : Bool → Dict (Dict String) → Dict (Dict String)
with_gpu false devices = devices
with_gpu true devices = insert "gpu0" (insert "gputype" "physical" (insert "type" "gpu" [])) devices

unfoldable pub build_create_devices :
    Placement → Option String → Bool → String → String → String → String → Dict (Dict String)
build_create_devices placement egress_acl gpu supervisor_pool supervisor_volume dhcp_client_pool
      dhcp_client_volume =
    let root = insert "path" "/" (insert "pool" placement.storage_pool (insert "type" "disk" [])) in
    let eth0 =
      restricted egress_acl (insert "network" placement.network (insert "type" "nic" [])) in
    let supervisor = volume_disk supervisor_pool supervisor_volume guest_supervisor_bin_dir in
    let dhcp_client = volume_disk dhcp_client_pool dhcp_client_volume guest_dhcp_client_dir in
    with_gpu gpu (
      insert "dhcp-client" dhcp_client
        (insert "supervisor" supervisor (insert "eth0" eth0 (insert "root" root []))))
