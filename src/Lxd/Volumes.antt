-- ===== src/Lxd/Volumes.antt =====
-- crates/lxd-client/src/storage.rs: `ensure_single_file_volume` and what it is made of. `tarball`
-- stands for the tar crate.
pub mod Ensured
use openshell_driver_lxd.Common.{
  ℕ, String, List, [], ◌∷◌, Option, none, some, Bool, true, false, ◌||◌, ◌==◌, string_eq, not,
  if◌then◌else◌,
}
use openshell_driver_lxd.Common.Dict.{Dict, lookup}
use openshell_driver_lxd.Lxd.{
  Lxd, volume_exists, get_volume, create_volume, update_volume, wait_for,
}
use openshell_driver_lxd.Lxd.Types.{LxdError, Result, ok, err, Operation}
use openshell_driver_lxd.Lxd.Types
use openshell_driver_lxd.Lxd.Actions.{World}
use openshell_driver_lxd.Lxd.Client.{Chain, done, fail, outcome, ◌>>=◌, ◌>>◌, call}

-- A file of a tarball: its name, its content and its mode.
pub record Entry : Type 0 where
  pub file_name : String
  pub contents : List ℕ
  pub mode : ℕ

abbrev pub is_shifted : Dict String → Bool
is_shifted config = elim (lookup "security.shifted" config) [
  | none ↦ false
  | some v ↦ v == "true" || v == "1"
]

abbrev pub shifted_config : Dict String
shifted_config = ("security.shifted", "true") ∷ []

abbrev pub executable : ℕ
executable = 0o755

module _ (tarball : List Entry → Result LxdError (List ℕ)) (L : Lxd) (pool name : String) where
  unfoldable pub shift_volume : Chain L (Unit {0})
  shift_volume = do
    op ← call (update_volume pool name shifted_config)
    call (wait_for op.id)
    done tt

  unfoldable pub ensure_storage_pool_volume_shifted : Chain L (Unit {0})
  ensure_storage_pool_volume_shifted = do
    config ← call (get_volume pool name)
    if is_shifted config then done tt else shift_volume

  -- The creation, and the wait for its operation.
  unfoldable pub create_from : List ℕ → Chain L (Unit {0})
  create_from bytes = do op ← call (create_volume pool name bytes); call (wait_for op.id); done tt

  -- After the creation: a failure is none if the volume is there now.
  abbrev pub after_creation : Result LxdError (Unit {0}) → Chain L (Unit {0})
  after_creation (ok _) = ensure_storage_pool_volume_shifted
  after_creation (err e) = do
    raced ← call (volume_exists pool name)
    if raced then ensure_storage_pool_volume_shifted else fail e

  abbrev pub create_packed : Result LxdError (List ℕ) → Chain L (Unit {0})
  create_packed (ok bytes) = do created ← outcome (create_from bytes); after_creation created
  create_packed (err e) = fail e

  abbrev pub create_if : Bool → List Entry → Chain L (Unit {0})
  create_if true entries = ensure_storage_pool_volume_shifted
  create_if false entries = create_packed (tarball entries)

  unfoldable pub ensure_single_file_volume : List Entry → Chain L (Unit {0})
  ensure_single_file_volume entries = do
    exists ← call (volume_exists pool name)
    create_if exists entries

  abbrev pub packed : Result String (List ℕ) → Chain L (Unit {0})
  packed (ok bytes) =
      ensure_single_file_volume
        (record { file_name = "openshell-sandbox"; contents = bytes; mode = executable } ∷ [])
  packed (err e) = fail (Types.io e)

  -- The binary is read without following symlinks.
  unfoldable pub ensure_supervisor_volume : String → Chain L (Unit {0})
  ensure_supervisor_volume binary w =
      let (content, state) = L.read_file binary w.state in
      packed content (record w { state = state })

  unfoldable pub ensure_dhcp_client_volume : List ℕ → List ℕ → Chain L (Unit {0})
  ensure_dhcp_client_volume binary_bytes script_bytes = ensure_single_file_volume (
      record { file_name = "udhcpc"; contents = binary_bytes; mode = executable }
      ∷ record { file_name = "udhcpc.script"; contents = script_bytes; mode = executable }
      ∷ [])
