-- ===== src/Driver/Scope.antt =====
-- crates/openshell-driver-lxd/src/driver.rs: what the methods of the driver may touch, and the reads.
use openshell_driver_lxd.Common.{
  ◌≡◌, refl, ℕ, String, List, [], ◌∷◌, Option, none, some, Bool, true, false, not, ◌==◌, string_eq,
  eq_refl, get_elem?, ap,
}
use openshell_driver_lxd.Lxd.{Lxd, Request}
use openshell_driver_lxd.Lxd.{
  wait_for, list_images, delete_image, list_storage_pools, list_custom_volumes,
  delete_custom_volume, get_instance, list_instances, create_instance, start_instance,
  stop_instance, patch_instance_config, delete_instance, push_file_into_instance, wait_operation,
  get_network, storage_pool_exists, get_network_acl, update_network_acl, create_network_acl,
  volume_exists, get_volume, create_volume, update_volume, create_image_from_split,
  create_image_alias, get_image_aliases,
}
use openshell_driver_lxd.Lxd.Types.{LxdError, Result, ok, err, Instance, Operation}
use openshell_driver_lxd.Lxd.Actions.{World, pure, try_send, read_file, ◌>>=◌}
use openshell_driver_lxd.Lxd.Quiet.{
  Quiet, logged, quiet_rules, Quiet-option, Quiet-bind, Quiet-read_file, Quiet-result, Quiet-raise,
  Quiet-pure,
}
use openshell_driver_lxd.Config.{Config, guest_tls}
use openshell_driver_lxd.Mapping.{Observation}
use openshell_driver_lxd.Driver.{finished, managed, await_operation, get_managed_instance}
use openshell_driver_lxd.Driver.Start.{read_files, read_guest_tls_files}
use openshell_driver_lxd.Driver.Reads.{
  confirm_runtime_restart, get_sandbox, reread, resettle, settle_list, list_sandboxes,
  find_name_by_sandbox_id,
}

-- The calls that change what LXD holds.
abbrev pub writes : Request → Bool
writes (get_instance name) = false
writes list_instances = false
writes (wait_operation id timeout_secs) = false
writes (wait_for id) = false
writes list_images = false
writes list_storage_pools = false
writes (list_custom_volumes pool) = false
writes (get_network name) = false
writes (storage_pool_exists pool) = false
writes (get_network_acl name) = false
writes (volume_exists pool name) = false
writes (get_volume pool name) = false
writes (get_image_aliases fingerprint) = false
writes _ = true

-- The calls that change anything but the instance `name`.
abbrev pub strays : String → Request → Bool
strays name (get_instance other) = false
strays name list_instances = false
strays name (wait_operation id timeout_secs) = false
strays name (get_network other) = false
strays name (storage_pool_exists pool) = false
strays name (get_network_acl acl) = false
strays name (volume_exists pool volume) = false
strays name (get_volume pool volume) = false
strays name (update_network_acl acl egress) = true
strays name (create_network_acl acl egress) = true
strays name (create_volume pool volume tarball) = true
strays name (update_volume pool volume config) = true
strays name (create_image_from_split metadata_filename metadata_bytes rootfs_filename path) = true
strays name (create_image_alias alias target_fingerprint description) = true
strays name (get_image_aliases fingerprint) = false
strays name (wait_for id) = false
strays name list_images = false
strays name list_storage_pools = false
strays name (list_custom_volumes pool) = false
strays name (delete_image fingerprint) = true
strays name (delete_custom_volume pool volume location) = true
strays name (create_instance other image_alias config devices profiles start) = not (other == name)
strays name (start_instance other) = not (other == name)
strays name (stop_instance other force timeout_secs) = not (other == name)
strays name (patch_instance_config other config) = not (other == name)
strays name (delete_instance other) = not (other == name)
strays name (push_file_into_instance other guest_path content) = not (other == name)

pub same_name : (name : String) → not (name == name) ≡ false
same_name name = ap not (eq_refl name)

module _ (debug : String → String) (c : Config) (L : Lxd) where
  module _ (p : Request → Bool)
      (p-wait : (id : String) (n : ℕ) → p (wait_operation id n) ≡ false) where
    finished-Quiet : (o : Option Operation) → Quiet p (finished debug c L o)
    finished-Quiet none = search quiet_rules
    finished-Quiet (some op) = search quiet_rules

    pub await_operation-Quiet : (id : String) → Quiet p (await_operation debug c L id)
    unfolding await_operation
    await_operation-Quiet id = search (quiet_rules, finished-Quiet, p-wait)

  read_files-Quiet :
      (p : Request → Bool) (files : List (String × String)) → Quiet p (read_files debug c L files)
  unfolding read_files
  read_files-Quiet p [] = search quiet_rules
  read_files-Quiet p ((guest_path, host_path) ∷ rest) =
      Quiet-bind (read_file host_path) _ (Quiet-read_file host_path) λ r.
        Quiet-result r _ _ (λ e. Quiet-raise _)
          λ content.
            Quiet-bind (read_files debug c L rest) _ (read_files-Quiet p rest)
              (λ files. Quiet-pure _)

  pub read_guest_tls_files-Quiet : (p : Request → Bool) → Quiet p (read_guest_tls_files debug c L)
  unfolding read_guest_tls_files
  read_guest_tls_files-Quiet p =
      Quiet-option (guest_tls c) (pure []) _ (Quiet-pure []) (λ t. read_files-Quiet p _)

  managed-Quiet :
      (p : Request → Bool) (name : String) (r : Result LxdError Instance)
      → Quiet p (managed debug c L name r)
  managed-Quiet p name (ok i) = search quiet_rules
  managed-Quiet p name (err e) = search quiet_rules

  module _ (p : Request → Bool) (p-get : (name : String) → p (get_instance name) ≡ false) where
    pub get_managed_instance-Quiet : (name : String) → Quiet p (get_managed_instance debug c L name)
    unfolding get_managed_instance
    get_managed_instance-Quiet name = search (quiet_rules, managed-Quiet, p-get)

    confirm_runtime_restart-Quiet : (i : Instance) → Quiet p (confirm_runtime_restart debug c L i)
    unfolding confirm_runtime_restart
    confirm_runtime_restart-Quiet i = search (quiet_rules, p-get)

    get_sandbox-Quiet : (name : String) → Quiet p (get_sandbox debug c L name)
    unfolding get_sandbox
    get_sandbox-Quiet name =
        search (quiet_rules, get_managed_instance-Quiet, confirm_runtime_restart-Quiet)

    resettle-Quiet :
        (is : List ℕ) (sandboxes : List Observation) → Quiet p (resettle debug c L is sandboxes)
    unfolding resettle
    resettle-Quiet [] sandboxes = search quiet_rules
    resettle-Quiet (i ∷ is) sandboxes =
        Quiet-option (get_elem? sandboxes i) (pure none)
          (λ s. try_send (get_instance s.name) >>= λ r.
            resettle debug c L is (reread debug sandboxes i r))
          (search quiet_rules) (λ s. search (quiet_rules, p-get, resettle-Quiet is))

    module _ (p-list : p list_instances ≡ false) where
      settle_list-Quiet : (x : List Observation × List ℕ) → Quiet p (settle_list debug c L x)
      settle_list-Quiet (sandboxes, []) = search quiet_rules
      settle_list-Quiet (sandboxes, i ∷ is) = search (quiet_rules, resettle-Quiet)

      list_sandboxes-Quiet : Quiet p (list_sandboxes debug c L)
      unfolding list_sandboxes
      list_sandboxes-Quiet = search (quiet_rules, p-list, settle_list-Quiet)

      find_name_by_sandbox_id-Quiet : (id : String) → Quiet p (find_name_by_sandbox_id debug c L id)
      unfolding find_name_by_sandbox_id
      find_name_by_sandbox_id-Quiet id = search (quiet_rules, p-list)

  -- The reads make no call that changes what LXD holds, whatever LXD answers.
  pub reads-write_nothing :
      (name id : String) (w : World L)
      → (logged writes (get_sandbox debug c L name w).1 ≡ logged writes w)
        × (logged writes (list_sandboxes debug c L w).1 ≡ logged writes w)
        × (logged writes (find_name_by_sandbox_id debug c L id w).1 ≡ logged writes w)
  reads-write_nothing name id w = (
    (get_sandbox-Quiet writes (λ _. refl) name).at w,
    (list_sandboxes-Quiet writes (λ _. refl) refl).at w,
    (find_name_by_sandbox_id-Quiet writes (λ _. refl) refl id).at w,
  )
