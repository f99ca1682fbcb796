-- ===== src/Tests.antt =====
-- The theorems at concrete inputs, and runs of the definitions. `Toy` is an LXD with one instance at
-- most, two images and one volume, which does at once what it is asked to do.
pub mod Runs
pub mod Mapping
pub mod Lifecycle
pub mod Cleanup
pub mod Creation
pub mod Events
pub mod Uploads
pub mod Waits
pub mod Trusts
pub mod Converts
pub mod Collections
pub mod Binaries
pub mod Provision
pub mod Rpcs
pub mod Caching
pub mod Images
use openshell_driver_lxd.Common.{
  ℕ, String, List, [], ◌∷◌, Option, none, some, Bool, true, false, ◌==◌, string_eq, if◌then◌else◌,
}
use openshell_driver_lxd.Common.Dict.{Dict, insert, erase}
use openshell_driver_lxd.Lxd.{Lxd, Request, Response}
use openshell_driver_lxd.Lxd.{
  get_instance, list_instances, create_instance, start_instance, stop_instance,
  patch_instance_config, delete_instance, push_file_into_instance, wait_operation, wait_for,
  list_images, delete_image, list_storage_pools, list_custom_volumes, delete_custom_volume,
  get_network, storage_pool_exists, get_network_acl, update_network_acl, create_network_acl,
  volume_exists, get_volume, create_volume, update_volume, create_image_from_split,
  create_image_alias, get_image_aliases,
}
use openshell_driver_lxd.Lxd.Types.{
  LxdError, api, Result, ok, err, Instance, Operation, OperationStatus, Network, Image,
  StorageVolume,
}
use openshell_driver_lxd.Lxd.Actions.{World}
use openshell_driver_lxd.Config.{Config, pos}

abbrev pub done : Operation
done = record { id = "op"; description = "toy"; status = OperationStatus.success; err = "" }

abbrev pub images : List Image
images =
    record {
      fingerprint = "old";
      project = "default";
      aliases = "oci-0123456789abcdef0123456789abcdef0123456789abcdef0123456789abcdef" ∷ [];
    }
    ∷ record {
      fingerprint = "current";
      project = "default";
      aliases = "oci-r3-0123456789abcdef0123456789abcdef0123456789abcdef0123456789abcdef" ∷ [];
    }
    ∷ []

abbrev pub volumes : List StorageVolume
volumes =
    record { name = "openshell-supervisor-1"; project = "default"; used_by = []; location = "" }
    ∷ []

abbrev found : String → Option Instance → Result LxdError Instance
found name none = err (api 404 "Instance not found")
found name (some i) = if i.name == name then ok i else err (api 404 "Instance not found")

abbrev with_status : String → Option Instance → Option Instance
with_status status none = none
with_status status (some i) = some (record i { status = status })

unfoldable pub patched : Dict (Option String) → Dict String → Dict String
patched [] config = config
patched ((k, none) ∷ rest) config = patched rest (erase k config)
patched ((k, some v) ∷ rest) config = patched rest (insert k v config)

abbrev with_config : Dict (Option String) → Option Instance → Option Instance
with_config config none = none
with_config config (some i) = some (record i { config = patched config i.config })

abbrev all_of : Option Instance → List Instance
all_of none = []
all_of (some i) = i ∷ []

abbrev pub answer : (r : Request) → Option Instance → Result LxdError (Response r) × Option Instance
answer (get_instance name) s = (found name s, s)
answer list_instances s = (ok (all_of s), s)
answer (create_instance name image_alias config devices profiles start) s = (
  ok done,
  some (record {
    name = name;
    status = if start then "Running" else "Stopped";
    config = config;
    project = "default";
  }),
)
answer (start_instance name) s = (ok done, with_status "Running" s)
answer (stop_instance name force timeout_secs) s = (ok done, with_status "Stopped" s)
answer (patch_instance_config name config) s = (ok tt, with_config config s)
answer (delete_instance name) s = (ok done, none)
answer (push_file_into_instance name guest_path content) s = (ok tt, s)
answer (wait_operation id timeout_secs) s = (ok (some done), s)
answer (wait_for id) s = (ok done, s)
answer list_images s = (ok images, s)
answer (delete_image fingerprint) s = (ok done, s)
answer list_storage_pools s = (ok ("pool" ∷ []), s)
answer (list_custom_volumes pool) s = (ok volumes, s)
answer (delete_custom_volume pool name location) s = (ok tt, s)
answer (get_network name) s = (err (api 404 "Network not found"), s)
answer (storage_pool_exists pool) s = (ok true, s)
answer (get_network_acl name) s = (err (api 404 "Network ACL not found"), s)
answer (update_network_acl name egress) s = (ok done, s)
answer (create_network_acl name egress) s = (ok done, s)
answer (volume_exists pool name) s = (ok false, s)
answer (get_volume pool name) s = (ok [], s)
answer (create_volume pool name tarball) s = (ok done, s)
answer (update_volume pool name config) s = (ok done, s)
answer (create_image_from_split metadata_filename metadata_bytes rootfs_filename path) s =
    (ok done, s)
answer (create_image_alias alias target_fingerprint description) s =
    (err (api 409 "alias already exists"), s)
answer (get_image_aliases fingerprint) s = (ok [], s)

abbrev pub Toy : Lxd
Toy = record {
  State = Option Instance;
  answer = answer;
  sleep = λ millis s. s;
  read_file = λ path s. (err "no such file", s);
  holders = λ name s. 2;
}

abbrev pub quoted : String → String
quoted s = s

abbrev pub sandbox_box : String → Dict String → Instance
sandbox_box status config = record {
  name = "box";
  status = status;
  config = ("user.openshell.sandbox_id", "id-1") ∷ config;
  project = "default";
}

abbrev pub world : Option Instance → World Toy
world s = record { state = s; calls = []; locks = [] }

abbrev pub config : Config
config = record {
  project = "default";
  default_image = "ubuntu";
  default_network = "lxdbr0";
  default_storage_pool = "pool";
  supervisor_bin = none;
  supervisor_image = "supervisor";
  dhcp_client_bin = none;
  supervisor_cache_dir = "/var/cache";
  image_work_dir = "/var/work";
  supervisor_storage_pool = none;
  default_max_processes = 512;
  start_retries = 2;
  stop_timeout_secs = pos 30;
  operation_timeout_secs = 60;
  gateway_grpc_port = 8080;
  gateway_endpoint = none;
  sandbox_nesting = false;
  restrict_sandbox_egress = true;
  guest_tls_ca = none;
  guest_tls_cert = none;
  guest_tls_key = none;
  gateway_tls_server_name = none;
  allow_plaintext_gateway = true;
  image_cache_alias_prefix = "oci-";
}
