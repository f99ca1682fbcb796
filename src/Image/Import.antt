-- ===== src/Image/Import.antt =====
-- crates/openshell-driver-lxd/src/image.rs, `SkopeoImporter::import`: its last steps, the upload of the
-- converted image and the binding of its alias. `is_late` says whether the timeout of a call elapses
-- before its answer; the call is made all the same. `metadata` is the operation's field of this name.
pub mod Cleanup
pub mod Bound
use openshell_driver_lxd.Common.{
  ℕ, String, ◌<>◌, List, [], Option, none, some, Bool, true, false, length, ◌==◌, nat_eq,
  if◌then◌else◌,
}
use openshell_driver_lxd.Lxd.{
  Lxd, Request, Response, create_image_from_split, create_image_alias, get_image_aliases,
  delete_image, wait_for,
}
use openshell_driver_lxd.Lxd.Types.{LxdError, Result, ok, err, Operation}
use openshell_driver_lxd.Lxd.Actions.{Action, pure, raise, ◌>>=◌, ◌>>◌, try_send, World}
use openshell_driver_lxd.Errors.{DriverError, image_import}
use openshell_driver_lxd.Image.Manifest.{Json, get_in, as_str}

-- The converted image, and the names it is known by.
pub record Converted : Type 0 where
  pub digest : String
  pub alias : String
  pub metadata_tar : List ℕ
  pub squashfs_path : String

-- `display` is the text of a client's error.
module _ (L : Lxd) (is_late : Request → L.State → Bool) (metadata : Operation → Option Json)
    (display : LxdError → String) where
  -- A call under `tokio::time::timeout`: nothing where the timeout elapses.
  abbrev pub unless_late : {A : Type 0} → Bool → A → Option A
  unless_late true a = none
  unless_late false a = some a

  unfoldable pub in_time : (r : Request) → Action L (Option (Result LxdError (Response r)))
  in_time r = do answer ← try_send r; λ w. (ok (unless_late (is_late r w.state) answer), w)

  -- The answer to a call under a timeout, with the error of each way to fail.
  abbrev pub in_time_or : {A : Type 0} → String → String → Option (Result LxdError A) → Action L A
  in_time_or late failed none = raise (image_import late)
  in_time_or late failed (some (err e)) = raise (image_import (failed <> display e))
  in_time_or late failed (some (ok a)) = pure a

  abbrev pub fingerprint_of : Operation → Option String
  fingerprint_of op = as_str (get_in "fingerprint" (metadata op))

  abbrev pub ended : Result LxdError Operation → Action L (Unit {0})
  ended (ok op) = in_time (wait_for op.id) >> pure tt
  ended (err e) = pure tt

  -- After an alias that could not be bound: the image goes, if it has no alias.
  abbrev pub clean_up : String → Result LxdError (List String) → Action L (Unit {0})
  clean_up fingerprint (err e) = pure tt
  clean_up fingerprint (ok aliases) =
      if length aliases == 0 then try_send (delete_image fingerprint) >>= ended else pure tt

  abbrev pub alias_answer : Converted → String → Result LxdError (Unit {0}) → Action L (Unit {0})
  alias_answer image fingerprint (ok _) = pure tt
  alias_answer image fingerprint (err e) = do
    aliases ← try_send (get_image_aliases fingerprint)
    clean_up fingerprint aliases
    raise (image_import ("failed to create image alias " <> (image.alias <> (": " <> display e))))

  abbrev pub alias_call : Converted → String → Request
  alias_call image fingerprint =
      create_image_alias image.alias fingerprint (some ("OpenShell image " <> image.digest))

  abbrev pub bind_alias : Converted → Option String → Action L (Unit {0})
  bind_alias image none = raise (image_import "operation response missing image fingerprint")
  bind_alias image (some fingerprint) = do
    bound ← try_send (alias_call image fingerprint)
    alias_answer image fingerprint bound

  abbrev pub upload_call : Converted → Request
  upload_call image =
      create_image_from_split "metadata.tar.xz" image.metadata_tar "rootfs.squashfs"
        image.squashfs_path

  unfoldable pub upload : Converted → Action L (Unit {0})
  upload image = do
    sent ← in_time (upload_call image)
    op ← in_time_or "timed out uploading split image to LXD" "LXD split image upload failed: " sent
    waited ← in_time (wait_for op.id)
    finished ←
        in_time_or "timed out waiting for image upload operation" "image upload operation failed: "
          waited
    bind_alias image (fingerprint_of finished)
