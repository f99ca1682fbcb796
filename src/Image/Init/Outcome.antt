-- ===== src/Image/Init/Outcome.antt =====
-- crates/openshell-driver-lxd/src/image.rs: the changes of `inject_init_script` and `install_init` where
-- they succeed.
use openshell_driver_lxd.Common.{◌≡◌, refl, ap, String, List, ◌∷◌, arith}
use openshell_driver_lxd.Lxd.Types.{Result, ok, err}
use openshell_driver_lxd.Errors.{DriverError}
use openshell_driver_lxd.Image.Rootfs.{pop, resolve_in_rootfs}
use openshell_driver_lxd.Image.Init.{
  Stat, directory, other, not_found, unknown, Change, create_dir_all, remove_file, write_new,
  symlink, Disk, Session, guest_init_path, guest_init_script_path, script_path, Texts, Edit,
  or_error, try_change, continue, then_do, replace_at, replace, inject_init_script, install_at,
  install_init, prepare_init,
}

module _ (D : Disk) where
  -- A change that the file system made.
  pub record Did (c : Change) (s v : Session D) : Type 0 where
    pub answer : (D.apply c s.state).0 ≡ ok tt
    pub after : record { state = (D.apply c s.state).1; changes = c ∷ s.changes } ≡ v

  -- The new file or link, by what stands at its path before: after the removal of that, or at once if
  -- there is nothing; and never where there is a directory, or where that is not known.
  abbrev pub ReplacedBy : List String → Change → Stat → Session D → Session D → Type 0
  ReplacedBy path c directory s v = ⊥
  ReplacedBy path c (unknown e) s v = ⊥
  ReplacedBy path c not_found s v = Did c s v
  ReplacedBy path c other s v = (u : Session D) × Did (remove_file path) s u × Did c u v

  abbrev pub Replaced : List String → Change → Session D → Session D → Type 0
  Replaced path c s v = ReplacedBy path c (D.stat s.state path) s v

module _ (D : Disk) (rootfs : String) where
  -- An edit that ends well at `v`.
  abbrev EndsAt : Result DriverError (Unit {0}) × Session D → Session D → Type 0
  EndsAt r v = (r.0 ≡ ok tt) × (r.1 ≡ v)

  continue-EndsAt :
      (r : Result DriverError (Unit {0})) (n : Edit D rootfs) (u v : Session D)
      → EndsAt (continue D rootfs r n u) v
      → (r ≡ ok tt) × EndsAt (n u) v
  continue-EndsAt (ok _) n u v h = (refl, h)
  continue-EndsAt (err e) n u v h = absurd (ground (arith, h.0))

  then_do-EndsAt :
      (m n : Edit D rootfs) (s v : Session D)
      → EndsAt (then_do D rootfs m n s) v
      → (u : Session D) × EndsAt (m s) u × EndsAt (n u) v
  unfolding then_do
  then_do-EndsAt m n s v h =
      let (done, rest) = continue-EndsAt (m s).0 n (m s).1 v h in ((m s).1, (done, refl), rest)

  or_error-ok :
      (error : String → DriverError) (r : Result String (Unit {0}))
      → or_error D rootfs error r ≡ ok tt
      → r ≡ ok tt
  or_error-ok error (ok _) h = refl
  or_error-ok error (err e) h = absurd (ground (arith, h))

  try_change-Did :
      (error : String → DriverError) (c : Change) (s v : Session D)
      → EndsAt (try_change D rootfs error c s) v
      → Did D c s v
  unfolding try_change
  try_change-Did error c s v h = record {
    answer = or_error-ok error (D.apply c s.state).0 h.0;
    after = h.1;
  }

  replace_at-ReplacedBy :
      (t : Texts) (path : List String) (c : Change) (st : Stat) (s v : Session D)
      → EndsAt (replace_at D rootfs t path c st s) v
      → ReplacedBy D path c st s v
  replace_at-ReplacedBy t path c directory s v h = absurd (ground (arith, h.0))
  replace_at-ReplacedBy t path c (unknown e) s v h = absurd (ground (arith, h.0))
  replace_at-ReplacedBy t path c not_found s v h = try_change-Did _ c s v h
  replace_at-ReplacedBy t path c other s v h =
      let (u, removed, created) = then_do-EndsAt _ _ s v h in
      (u, try_change-Did _ (remove_file path) s u removed, try_change-Did _ c u v created)

  replace-Replaced :
      (t : Texts) (path : List String) (c : Change) (s v : Session D)
      → EndsAt (replace D rootfs t path c s) v
      → Replaced D path c s v
  unfolding replace
  replace-Replaced t path c s v h = replace_at-ReplacedBy t path c (D.stat s.state path) s v h

  -- The parent of the init's place is made, and then the place is a symlink to the script.
  abbrev pub Linked : List String → Session D → Session D → Type 0
  Linked init s v =
      (u : Session D) × Did D (create_dir_all (pop init)) s u
      × Replaced D init (symlink guest_init_script_path init) u v

  install_at-Linked :
      (r : Result DriverError (List String)) (s v : Session D)
      → EndsAt (install_at D rootfs r s) v
      → (init : List String) × (r ≡ ok init) × Linked init s v
  install_at-Linked (err e) s v h = absurd (ground (arith, h.0))
  install_at-Linked (ok init) s v h =
      let (u, made, replaced) = then_do-EndsAt _ _ s v h in
      (
        init,
        refl,
        (
          u,
          try_change-Did _ (create_dir_all (pop init)) s u made,
          replace-Replaced _ init (symlink guest_init_script_path init) u v replaced,
        ),
      )

  install_init-Linked :
      (debug : String → String) (s v : Session D)
      → EndsAt (install_init D rootfs debug s) v
      → (init : List String) × (resolve_in_rootfs debug
            (D.is_symlink s.state)
            (D.read_link s.state)
            rootfs
            guest_init_path
          ≡ ok init)
        × Linked init s v
  unfolding install_init
  install_init-Linked debug s v h = install_at-Linked _ s v h

-- Where both steps succeed, the file system made these changes and no other. The script was written into
-- a new file with the mode 0755, at its place at the top of the rootfs; then the parent of the place
-- that `/sbin/init` now names in the image was made; and then that place was made a symlink to the
-- script. Where something stood at one of the two places, it was removed just before, and it was no
-- directory.
pub prepare_init-Installed :
    (D : Disk) (rootfs : String) (debug : String → String) (contents : String) (s v : Session D)
    → prepare_init D rootfs debug contents s ≡ (ok tt, v)
    → (injected : Session D) × (init : List String) × Replaced D script_path
        (write_new 0x1ED contents script_path)
        s
        injected
      × (resolve_in_rootfs debug
            (D.is_symlink injected.state)
            (D.read_link injected.state)
            rootfs
            guest_init_path
          ≡ ok init)
      × Linked D rootfs init injected v
unfolding prepare_init inject_init_script
prepare_init-Installed D rootfs debug contents s v h =
    let (u, written, installed) =
      then_do-EndsAt D rootfs (inject_init_script D rootfs contents) (install_init D rootfs debug) s
        v (ap (λ x. x.0) h, ap (λ x. x.1) h) in
    let (init, found, linked) = install_init-Linked D rootfs debug u v installed in
    (
      u,
      init,
      replace-Replaced D rootfs _ script_path (write_new 0x1ED contents script_path) s u written,
      found,
      linked,
    )
