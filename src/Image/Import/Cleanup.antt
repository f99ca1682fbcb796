-- ===== src/Image/Import/Cleanup.antt =====
-- crates/openshell-driver-lxd/src/image.rs, `SkopeoImporter::import`: what an upload removes.
use openshell_driver_lxd.Common.{
  ◌≡◌, refl, arith, String, List, [], ◌∷◌, Option, none, some, Bool, true, false, ◌==◌, nat_eq,
  length,
}
use openshell_driver_lxd.Lxd.{Lxd, Request, get_image_aliases, delete_image, wait_for}
use openshell_driver_lxd.Lxd.Types.{LxdError, Result, ok, err, Operation}
use openshell_driver_lxd.Lxd.Actions.{World, raise, ◌>>=◌, try_send}
use openshell_driver_lxd.Lxd.Quiet.{
  Quiet, logged, Quiet-bind, Quiet-try_send, Quiet-pure, Quiet-raise,
}
use openshell_driver_lxd.Image.Manifest.{Json}
use openshell_driver_lxd.Image.Import.{
  Converted, in_time, in_time_or, clean_up, alias_answer, alias_call, bind_alias, upload_call,
  upload,
}

abbrev pub removes_image : Request → Bool
removes_image (delete_image fingerprint) = true
removes_image _ = false

module _ (L : Lxd) (is_late : Request → L.State → Bool) (metadata : Operation → Option Json)
    (display : LxdError → String) where
  in_time-Quiet :
      (r : Request)
      → removes_image r ≡ false
      → Quiet removes_image (in_time L is_late metadata display r)
  unfolding in_time
  in_time-Quiet r h =
      Quiet-bind (try_send r) _ (Quiet-try_send {p = removes_image} r h)
        λ answer. record { at = λ w. refl }

  in_time_or-Quiet :
      {A : Type 0} (late failed : String) (r : Option (Result LxdError A))
      → Quiet removes_image (in_time_or L is_late metadata display late failed r)
  in_time_or-Quiet late failed none = Quiet-raise _
  in_time_or-Quiet late failed (some (err e)) = Quiet-raise _
  in_time_or-Quiet late failed (some (ok a)) = Quiet-pure a

  clean_up-Quiet :
      (fingerprint : String) (r : Result LxdError (List String))
      → ¬ (r ≡ ok [])
      → Quiet removes_image (clean_up L is_late metadata display fingerprint r)
  clean_up-Quiet fingerprint (err e) h = Quiet-pure tt
  clean_up-Quiet fingerprint (ok []) h = absurd (h refl)
  clean_up-Quiet fingerprint (ok (alias ∷ aliases)) h =
      let some_left : (length (alias ∷ aliases) == 0) ≡ false = ground arith in
      rw some_left (Quiet-pure tt)

  module _
      (named : (fingerprint : String) (s : L.State)
        → ¬ ((L.answer (get_image_aliases fingerprint) s).0 ≡ ok [])) where
    listed-Quiet :
        (image : Converted) (fingerprint : String) (e : LxdError)
        → Quiet removes_image (alias_answer L is_late metadata display image fingerprint (err e))
    unfolding try_send ◌>>=◌ raise
    listed-Quiet image fingerprint e = record {
      at = λ w.
          let (answer, state) = L.answer (get_image_aliases fingerprint) w.state in
          let v = record w { state = state; calls = get_image_aliases fingerprint ∷ w.calls } in
          (Quiet-bind (clean_up L is_late metadata display fingerprint answer) _
              (clean_up-Quiet fingerprint answer (named fingerprint w.state)) λ _. Quiet-raise _).at
            v;
    }

    alias_answer-Quiet :
        (image : Converted) (fingerprint : String) (r : Result LxdError (Unit {0}))
        → Quiet removes_image (alias_answer L is_late metadata display image fingerprint r)
    alias_answer-Quiet image fingerprint (ok _) = Quiet-pure tt
    alias_answer-Quiet image fingerprint (err e) = listed-Quiet image fingerprint e

    bind_alias-Quiet :
        (image : Converted) (fingerprint : Option String)
        → Quiet removes_image (bind_alias L is_late metadata display image fingerprint)
    bind_alias-Quiet image none = Quiet-raise _
    bind_alias-Quiet image (some fingerprint) =
        Quiet-bind (try_send (alias_call L is_late metadata display image fingerprint)) _
          (Quiet-try_send {p = removes_image}
            (alias_call L is_late metadata display image fingerprint) refl)
          (alias_answer-Quiet image fingerprint)

    upload-Quiet :
        (image : Converted) → Quiet removes_image (upload L is_late metadata display image)
    unfolding upload
    upload-Quiet image =
        Quiet-bind
          (in_time L is_late metadata display (upload_call L is_late metadata display image)) _
          (in_time-Quiet (upload_call L is_late metadata display image) refl)
          λ sent.
            Quiet-bind (in_time_or L is_late metadata display _ _ sent) _
              (in_time_or-Quiet _ _ sent)
              λ op.
                Quiet-bind (in_time L is_late metadata display (wait_for op.id)) _
                  (in_time-Quiet (wait_for op.id) refl)
                  λ waited.
                    Quiet-bind (in_time_or L is_late metadata display _ _ waited) _
                      (in_time_or-Quiet _ _ waited) λ finished. bind_alias-Quiet image _

-- Where LXD answers no listing of an image's aliases with none: an upload removes no image, whatever else
-- fails.
upload-keeps :
    (L : Lxd) (is_late : Request → L.State → Bool) (metadata : Operation → Option Json)
    (display : LxdError → String) (image : Converted) (w : World L)
    → ((fingerprint : String) (s : L.State)
        → ¬ ((L.answer (get_image_aliases fingerprint) s).0 ≡ ok []))
    → logged removes_image (upload L is_late metadata display image w).1 ≡ logged removes_image w
upload-keeps L is_late metadata display image w named =
    (upload-Quiet L is_late metadata display named image).at w
