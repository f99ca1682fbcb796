-- ===== src/Image/Import/Bound.antt =====
-- crates/openshell-driver-lxd/src/image.rs, `SkopeoImporter::import`: an upload that succeeds.
use openshell_driver_lxd.Common.{◌≡◌, String, ◌∷◌, Option, some, Bool, nat_eq}
use openshell_driver_lxd.Lxd.{Lxd, Request, wait_for}
use openshell_driver_lxd.Lxd.Types.{LxdError, ok, Operation}
use openshell_driver_lxd.Lxd.Actions.{World}
use openshell_driver_lxd.Image.Manifest.{Json}
use openshell_driver_lxd.Image.Import.{Converted, fingerprint_of, alias_call, upload_call}

module _ (L : Lxd) (is_late : Request → L.State → Bool) (metadata : Operation → Option Json)
    (display : LxdError → String) (image : Converted) where
  -- What is behind an upload that succeeds: the operation that it waited for, its image's fingerprint, and
  -- where the alias was bound.
  pub record Bound (w v : World L) : Type 0 where
    pub id : String
    pub op : Operation
    pub fingerprint : String
    pub waited : L.State
    pub bound : L.State
    pub finished : (L.answer (wait_for id) waited).0 ≡ ok op
    pub named : fingerprint_of L is_late metadata display op ≡ some fingerprint
    pub accepted :
        (L.answer (alias_call L is_late metadata display image fingerprint) bound).0 ≡ ok tt
    pub calls :
        v.calls
        ≡ alias_call L is_late metadata display image fingerprint
          ∷ wait_for id
          ∷ upload_call L is_late metadata display image
          ∷ w.calls
