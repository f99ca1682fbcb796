-- ===== src/Lxd.antt =====
-- crates/lxd-client/src: its errors and the data of the LXD REST API, and the LXD daemon as the
-- driver meets it, behind the methods of `LxdClient`. The daemon is no code of the repository: what
-- it answers, and what it and its other clients do between two calls, is the parameter `Lxd`.
pub mod Types
pub mod Resources
pub mod Actions
pub mod Quiet
pub mod AtMost
pub mod Client
pub mod Acls
pub mod Volumes
pub mod SplitImageBody
pub mod Operations
pub mod Files
pub mod Http
pub mod Trust
use openshell_driver_lxd.Common.{
  ℕ, String, List, [], ◌∷◌, Option, none, some, Bool, true, false, ◌==◌, nat_eq,
}
use openshell_driver_lxd.Common.Dict.{Dict}
use openshell_driver_lxd.Config.{I64}
use openshell_driver_lxd.Lxd.Types.{
  LxdError, api, Result, Instance, Operation, Network, Image, StorageVolume, Acl,
}

-- A call of an `LxdClient` method. `wait_operation` is the driver's, bounded by seconds;
-- `stop_instance` is `stop_instance_timeout`; `wait_for` is the client's own `wait_operation`. The calls
-- on ACLs and volumes are those that `ensure_network_acl` and `ensure_single_file_volume` make; what
-- `get_volume` returns is the volume's `config`.
pub data Request : Type 0 where
  get_instance : (name : String) → Request
  list_instances : Request
  create_instance :
      (name image_alias : String) (config : Dict String) (devices : Dict (Dict String))
      (profiles : List String) (start : Bool)
      → Request
  start_instance : (name : String) → Request
  stop_instance : (name : String) (force : Bool) (timeout_secs : I64) → Request
  patch_instance_config : (name : String) (config : Dict (Option String)) → Request
  delete_instance : (name : String) → Request
  push_file_into_instance : (name guest_path : String) (content : List ℕ) → Request
  wait_operation : (id : String) (timeout_secs : ℕ) → Request
  wait_for : (id : String) → Request
  list_images : Request
  delete_image : (fingerprint : String) → Request
  list_storage_pools : Request
  list_custom_volumes : (pool : String) → Request
  delete_custom_volume : (pool name location : String) → Request
  get_network : (name : String) → Request
  storage_pool_exists : (pool : String) → Request
  get_network_acl : (name : String) → Request
  update_network_acl : (name : String) (egress : List (Dict String)) → Request
  create_network_acl : (name : String) (egress : List (Dict String)) → Request
  volume_exists : (pool name : String) → Request
  get_volume : (pool name : String) → Request
  create_volume : (pool name : String) (tarball : List ℕ) → Request
  update_volume : (pool name : String) (config : Dict String) → Request
  create_image_from_split :
      (metadata_filename : String) (metadata_bytes : List ℕ) (rootfs_filename rootfs_path : String)
      → Request
  create_image_alias : (alias target_fingerprint : String) (description : Option String) → Request
  get_image_aliases : (fingerprint : String) → Request

-- What a successful call returns. A wait that the deadline cut off returns `none`.
abbrev pub Response : Request → Type 0
Response (get_instance name) = Instance
Response list_instances = List Instance
Response (create_instance name image_alias config devices profiles start) = Operation
Response (start_instance name) = Operation
Response (stop_instance name force timeout_secs) = Operation
Response (patch_instance_config name config) = Unit
Response (delete_instance name) = Operation
Response (push_file_into_instance name guest_path content) = Unit
Response (wait_operation id timeout_secs) = Option Operation
Response (wait_for id) = Operation
Response list_images = List Image
Response (delete_image fingerprint) = Operation
Response list_storage_pools = List String
Response (list_custom_volumes pool) = List StorageVolume
Response (delete_custom_volume pool name location) = Unit
Response (get_network name) = Network
Response (storage_pool_exists pool) = Bool
Response (get_network_acl name) = Acl
Response (update_network_acl name egress) = Operation
Response (create_network_acl name egress) = Operation
Response (volume_exists pool name) = Bool
Response (get_volume pool name) = Dict String
Response (create_volume pool name tarball) = Operation
Response (update_volume pool name config) = Operation
Response (create_image_from_split metadata_filename metadata_bytes rootfs_filename rootfs_path) =
    Operation
Response (create_image_alias alias target_fingerprint description) = Unit
Response (get_image_aliases fingerprint) = List String

-- The daemon and the host: the answer to each call, what passes while the driver sleeps, the files
-- that the driver reads (the error is its text), and how many tasks hold a sandbox's lifecycle lock.
pub record Lxd : Type 1 where
  pub State : Type 0
  pub answer : (r : Request) → State → Result LxdError (Response r) × State
  pub sleep : (millis : ℕ) → State → State
  pub read_file : (path : String) → State → Result String (List ℕ) × State
  pub holders : (name : String) → State → ℕ

-- `LxdError::Api { status_code: 404, .. }`
abbrev pub is_missing : LxdError → Bool
is_missing (api status_code message) = status_code == 404
is_missing _ = false
