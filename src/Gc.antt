-- ===== src/Gc.antt =====
-- crates/openshell-driver-lxd/src/gc.rs: the clean-up of what the driver leaves behind, and the names
-- by which it knows its own images and volumes (`cache_alias_with_prefix` of image.rs,
-- `supervisor_volume_name` and `dhcp_client_volume_name` of mapping.rs).
pub mod Aliases
pub mod Removals
pub mod Host
pub mod Run
pub mod Spares
use openshell_driver_lxd.Common.{
  ℕ, ◌+◌, String, ◌<>◌, List, [], ◌∷◌, ◌++◌, Option, none, some, Bool, true, false,
}
use openshell_driver_lxd.Common.{
  not, ◌&&◌, ◌||◌, ◌==◌, nat_eq, string_eq, if◌then◌else◌, any, all, keep, contains, length, ltb,
}
use openshell_driver_lxd.Common.Text.{
  strip_prefix, starts_with, split_once, all_chars, len_ascii, is_hexdigit,
}
use openshell_driver_lxd.Common.Decimal.{parse_u32}
use openshell_driver_lxd.Lxd.{
  Lxd, list_images, delete_image, wait_for, list_storage_pools, list_custom_volumes,
  delete_custom_volume,
}
use openshell_driver_lxd.Lxd.Types.{LxdError, Result, ok, err, Image, StorageVolume, Operation}
use openshell_driver_lxd.Lxd.Actions.{Action, pure, ◌>>=◌, ◌>>◌, try_send}

abbrev pub conversion_revision : ℕ
conversion_revision = 3

-- `strip_prefix("sha256:").unwrap_or(digest)`
unfoldable pub clean : String → String
clean digest = elim (strip_prefix digest "sha256:") [ none ↦ digest | some rest ↦ rest ]

unfoldable pub cache_alias_with_prefix : String → String → String
cache_alias_with_prefix prefix digest = prefix <> ("r3-" <> clean digest)

unfoldable pub supervisor_volume_name : String → String
supervisor_volume_name digest = "openshell-supervisor-" <> clean digest

unfoldable pub dhcp_client_volume_name : String → String
dhcp_client_volume_name digest = "openshell-dhcp-client-" <> clean digest

-- 64 hexadecimal digits: then the length in bytes is the number of characters.
abbrev pub is_digest : String → Bool
is_digest s = len_ascii s == 64 && all_chars is_hexdigit s

-- The part of an alias after its prefix, split as a revision and a digest.
abbrev pub revision_parts : String → Option (String × String)
revision_parts rest = elim (strip_prefix rest "r") [ none ↦ none | some r ↦ split_once b'-' r ]

abbrev pub older_revision : Option (String × String) → String → Bool
older_revision none rest = is_digest rest
older_revision (some (revision, digest)) rest = elim (parse_u32 revision) [
  | none ↦ is_digest rest
  | some n ↦ ltb n conversion_revision && is_digest digest
]

unfoldable pub is_older_revision_alias : String → String → Bool
is_older_revision_alias alias prefix = elim (strip_prefix alias prefix) [
  | none ↦ false
  | some rest ↦ older_revision (revision_parts rest) rest
]

unfoldable pub is_stale_image : String → String → Image → Bool
is_stale_image project prefix image =
    image.project == project
    && (not (length image.aliases == 0)
        && all (λ alias. is_older_revision_alias alias prefix) image.aliases)

unfoldable pub is_unused_aux_volume : String → List String → StorageVolume → Bool
is_unused_aux_volume project in_use volume =
    let aux =
      starts_with volume.name (supervisor_volume_name "")
      || starts_with volume.name (dhcp_client_volume_name "") in
    volume.project == project
    && (aux && (length volume.used_by == 0 && not (contains in_use volume.name)))

-- What one collection removed.
pub record Collected : Type 0 where
  pub images : ℕ
  pub volumes : ℕ

module _ (L : Lxd) (project alias_prefix : String) where
  abbrev pub count_answer : {A : Type 0} → Result LxdError A → Action L ℕ
  count_answer (ok a) = pure 1
  count_answer (err e) = pure 0

  abbrev pub removal_answer : Result LxdError Operation → Action L ℕ
  removal_answer (ok op) = do r ← try_send (wait_for op.id); count_answer r
  removal_answer (err e) = pure 0

  -- The loop over the images, whether listed or stale; the number that was removed.
  unfoldable pub remove_images : List Image → Action L ℕ
  remove_images [] = pure 0
  remove_images (image ∷ images) = do
    r ← try_send (delete_image image.fingerprint)
    n ← removal_answer r
    rest ← remove_images images
    pure (n + rest)

  abbrev pub remove_listed : Result LxdError (List Image) → Action L ℕ
  remove_listed (ok images) = remove_images (keep (is_stale_image project alias_prefix) images)
  remove_listed (err e) = pure 0

  unfoldable pub remove_volumes : String → List StorageVolume → Action L ℕ
  remove_volumes pool [] = pure 0
  remove_volumes pool (volume ∷ volumes) = do
    r ← try_send (delete_custom_volume pool volume.name volume.location)
    n ← count_answer r
    rest ← remove_volumes pool volumes
    pure (n + rest)

  abbrev pub remove_listed_volumes :
      List String → String → Result LxdError (List StorageVolume) → Action L ℕ
  remove_listed_volumes in_use pool (ok volumes) =
      remove_volumes pool (keep (is_unused_aux_volume project in_use) volumes)
  remove_listed_volumes in_use pool (err e) = pure 0

  unfoldable pub collect_pools : List String → List String → Action L ℕ
  collect_pools in_use [] = pure 0
  collect_pools in_use (pool ∷ pools) = do
    r ← try_send (list_custom_volumes pool)
    n ← remove_listed_volumes in_use pool r
    rest ← collect_pools in_use pools
    pure (n + rest)

  abbrev pub collect_listed_pools : List String → Result LxdError (List String) → Action L ℕ
  collect_listed_pools in_use (ok pools) = collect_pools in_use pools
  collect_listed_pools in_use (err e) = pure 0

  abbrev pub collect_volumes : Option (List String) → Action L ℕ
  collect_volumes none = pure 0
  collect_volumes (some in_use) = do r ← try_send list_storage_pools; collect_listed_pools in_use r

  unfoldable pub collect : Option (List String) → Action L Collected
  collect keep_volumes = do
    r ← try_send list_images
    images ← remove_listed r
    volumes ← collect_volumes keep_volumes
    pure (record { images = images; volumes = volumes })

  abbrev pub collect_lxd : List String → Action L Collected
  collect_lxd keep_volumes = collect (some keep_volumes)

  abbrev pub collect_lxd_images_only : Action L Collected
  collect_lxd_images_only = collect none
