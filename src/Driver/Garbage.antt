-- ===== src/Driver/Garbage.antt =====
-- crates/openshell-driver-lxd/src/driver.rs: `resolve_supervisor` and `collect_garbage`, over the
-- daemon and the host together. The lock on the use of volumes, which keeps the clean-up of LXD apart
-- from the creation of sandboxes, is not modelled.
use openshell_driver_lxd.Common.{ℕ, String, ◌<>◌, List, [], ◌∷◌, Option, none, some, Bool}
use openshell_driver_lxd.Lxd.{Lxd}
use openshell_driver_lxd.Lxd.Types.{Result, ok, err}
use openshell_driver_lxd.Lxd.Actions.{World, Action}
use openshell_driver_lxd.Errors.{DriverError, image_import}
use openshell_driver_lxd.Config.{Config}
use openshell_driver_lxd.DhcpClient.{load_dhcp_client}
use openshell_driver_lxd.DhcpClient
use openshell_driver_lxd.Image.Supervisor.{
  Files, Importer, digest_of_file, extract_supervisor_binary,
}
use openshell_driver_lxd.Gc.{
  Collected, supervisor_volume_name, dhcp_client_volume_name, collect_lxd, collect_lxd_images_only,
}
use openshell_driver_lxd.Gc.Run.{Run}
use openshell_driver_lxd.Gc.Host.{Host, HostWorld, collect_host}

-- What the driver finds on the host: the files, the importer, where a DHCP client may be, the digest
-- of one; the debug form of a text, the grammar of references, and the text of an error.
pub record Finds : Type 0 where
  pub files : Files
  pub importer : Importer
  pub search : DhcpClient.Host
  pub read : String → Result String (List ℕ)
  pub dhcp_client_digest : List ℕ → String
  pub debug : String → String
  pub is_match : String → Bool
  pub to_string : DriverError → String

module _ (c : Config) (F : Finds) where
  abbrev pub with_digest : String → Result DriverError String → Result DriverError (String × String)
  with_digest path (ok digest) = ok (path, digest)
  with_digest path (err e) = err e

  abbrev pub extracted : Result DriverError (String × String) → Result DriverError (String × String)
  extracted (ok found) = ok found
  extracted (err e) = err (image_import ("supervisor binary extraction failed: " <> F.to_string e))

  abbrev pub resolve_from : Option String → Result DriverError (String × String)
  resolve_from (some path) = with_digest path (digest_of_file F.files path)
  resolve_from none = extracted (
      extract_supervisor_binary F.files F.importer F.debug F.is_match c.supervisor_image
        c.supervisor_cache_dir)

  unfoldable pub resolve_supervisor : Result DriverError (String × String)
  resolve_supervisor = resolve_from c.supervisor_bin

  -- The digest of what was found; a failure is only logged.
  abbrev pub digest_of : {A : Type 0} → Result DriverError (A × String) → Option String
  digest_of (ok found) = some found.1
  digest_of (err e) = none

  unfoldable pub supervisor_digest : Option String
  supervisor_digest = digest_of resolve_supervisor

  unfoldable pub dhcp_digest : Option String
  dhcp_digest =
      digest_of (load_dhcp_client F.search F.read F.dhcp_client_digest F.debug c.dhcp_client_bin)

  abbrev pub collect_known : (L : Lxd) → Option String → Option String → Action L Collected
  collect_known L (some supervisor) (some dhcp) =
      collect_lxd L c.project c.image_cache_alias_prefix
        (supervisor_volume_name supervisor ∷ dhcp_client_volume_name dhcp ∷ [])
  collect_known L _ _ = collect_lxd_images_only L c.project c.image_cache_alias_prefix

  -- The digest whose binary the clean-up of the host keeps, alone of all.
  abbrev pub cached_digest : Option String → Option String → Option String
  cached_digest (some path) digest = none
  cached_digest none digest = digest

  unfoldable pub collect_garbage :
      (L : Lxd) (H : Host) → ℕ → World L × HostWorld H → World L × HostWorld H
  collect_garbage L H now w =
      let (collected, lxd) = collect_known L supervisor_digest dhcp_digest w.0 in
      let (host_entries, host) =
        collect_host H c.supervisor_cache_dir (cached_digest c.supervisor_bin supervisor_digest)
          c.image_work_dir now w.1 in
      (lxd, host)

-- The volumes that a clean-up keeps: with both digests known, the two that have them. Otherwise there
-- is no such list, and it removes no volume.
abbrev pub kept_volumes : Option String → Option String → Option (List String)
kept_volumes (some supervisor) (some dhcp) =
    some (supervisor_volume_name supervisor ∷ dhcp_client_volume_name dhcp ∷ [])
kept_volumes _ _ = none
