-- ===== src/Gc/Removals.antt =====
-- crates/openshell-driver-lxd/src/gc.rs: the images that a clean-up removes.
use openshell_driver_lxd.Common.{
  ℕ, ◌+◌, ◌≡◌, refl, ap, ◌∙◌, String, List, [], ◌∷◌, Bool, true, false,
}
use openshell_driver_lxd.Common.{nat_eq, string_eq, keep}
use openshell_driver_lxd.Lxd.{Lxd, Request, list_images, delete_image, wait_for}
use openshell_driver_lxd.Lxd.Types.{LxdError, Result, ok, err, Image, Operation}
use openshell_driver_lxd.Lxd.Actions.{Action, continue, World, pure, ◌>>=◌, try_send}
use openshell_driver_lxd.Lxd.Quiet.{logged}
use openshell_driver_lxd.Errors.{DriverError}
use openshell_driver_lxd.Gc.{
  Collected, is_stale_image, count_answer, removal_answer, remove_images, remove_listed, collect,
  collect_lxd_images_only,
}

-- The calls that remove an image.
abbrev pub removes_image : Request → Bool
removes_image (delete_image fingerprint) = true
removes_image _ = false

-- The calls that remove images one after another, on top of `cs`.
abbrev pub removed : List Image → List Request → List Request
removed [] cs = cs
removed (image ∷ images) cs = removed images (delete_image image.fingerprint ∷ cs)

module _ (L : Lxd) (project alias_prefix : String) where
  -- What `remove_images` does after the answer to its first removal.
  abbrev others : List Image → ℕ → Action L ℕ
  others images n = remove_images L project alias_prefix images >>= λ rest. pure (n + rest)

  counted :
      {A : Type 0} (r : Result LxdError A) (w : World L)
      → (n : ℕ) × (count_answer L project alias_prefix r w ≡ (ok n, w))
  unfolding pure
  counted (ok a) w = (1, refl)
  counted (err e) w = (0, refl)

  -- The answer to one removal is no failure, and removes nothing more.
  answered :
      (r : Result LxdError Operation) (w : World L)
      → (n : ℕ) × (v : World L) × (removal_answer L project alias_prefix r w ≡ (ok n, v))
        × (logged removes_image v ≡ logged removes_image w)
  unfolding pure try_send ◌>>=◌
  answered (ok op) w =
      let (answer, state) = L.answer (wait_for op.id) w.state in
      let v = record w { state = state; calls = wait_for op.id ∷ w.calls } in
      let (n, e) = counted answer v in (n, v, e, refl)
  answered (err e) w = (0, w, refl, refl)

  then_pure :
      {A B : Type 0} (r : Result DriverError A) (f : A → B) (w : World L)
      → (continue r (λ a. pure (f a)) w).1 ≡ w
  unfolding pure
  then_pure (ok a) f w = refl
  then_pure (err e) f w = refl

  remove_images-removed :
      (images : List Image) (w : World L) (cs : List Request)
      → logged removes_image w ≡ cs
      → logged removes_image (remove_images L project alias_prefix images w).1 ≡ removed images cs
  unfolding remove_images try_send pure ◌>>=◌
  remove_images-removed [] w cs h = h
  remove_images-removed (image ∷ images) w cs h =
      let (answer, state) = L.answer (delete_image image.fingerprint) w.state in
      let sent = record w { state = state; calls = delete_image image.fingerprint ∷ w.calls } in
      let (n, v, e, same) = answered answer sent in
      let (rest, last) = remove_images L project alias_prefix images v in
      ap
        (λ (x : Result DriverError ℕ × World L).
          logged removes_image (continue x.0 (others images) x.1).1)
        e
      ∙ (ap (logged removes_image) (then_pure rest (λ m. n + m) last)
          ∙ remove_images-removed images v (delete_image image.fingerprint ∷ cs)
              (same ∙ ap (λ ds. delete_image image.fingerprint ∷ ds) h))

  remove_listed-removed :
      (images : List Image) (w : World L)
      → logged removes_image (remove_listed L project alias_prefix (ok images) w).1
        ≡ removed (keep (is_stale_image project alias_prefix) images) (logged removes_image w)
  remove_listed-removed images w = remove_images-removed _ w _ refl

-- Where LXD answers the listing of the images, and whatever it answers to the removals: a collection
-- of images alone tries to remove each stale image of the list once, in the list's order, and no other.
pub collect_lxd_images_only-removed :
    (L : Lxd) (project alias_prefix : String) (w : World L) (images : List Image) (s : L.State)
    → L.answer list_images w.state ≡ (ok images, s)
    → logged removes_image (collect_lxd_images_only L project alias_prefix w).1
      ≡ removed (keep (is_stale_image project alias_prefix) images) (logged removes_image w)
unfolding collect try_send pure ◌>>=◌
collect_lxd_images_only-removed L project alias_prefix w images s found =
    let total : ℕ → Collected = λ m. record { images = m; volumes = 0 } in
    let listed = record w { state = s; calls = list_images ∷ w.calls } in
    let (n, v) = remove_listed L project alias_prefix (ok images) listed in
    ap
      (λ (x : Result LxdError (List Image) × L.State).
        logged removes_image
          ((remove_listed L project alias_prefix x.0 >>= λ m. pure (total m))
            (record w { state = x.1; calls = list_images ∷ w.calls })).1)
      found
    ∙ (ap (logged removes_image) (then_pure L project alias_prefix n total v)
        ∙ remove_listed-removed L project alias_prefix images listed)
