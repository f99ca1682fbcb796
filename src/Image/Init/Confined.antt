-- ===== src/Image/Init/Confined.antt =====
-- crates/openshell-driver-lxd/src/image.rs: the changes that `inject_init_script` and `install_init` make
-- stay inside the unpacked image.
use openshell_driver_lxd.Common.{◌≡◌, refl, sym, subst, String, List, [], ◌∷◌, Bool, All}
use openshell_driver_lxd.Common.Text.{all_chars}
use openshell_driver_lxd.Lxd.Types.{Result, ok, err}
use openshell_driver_lxd.Errors.{DriverError}
use openshell_driver_lxd.Image.Rootfs.{pop}
use openshell_driver_lxd.Image.Rootfs.Solid.{Solid, IsInside, resolve_in_rootfs-IsInside}
use openshell_driver_lxd.Image.Init.{
  Stat, directory, other, not_found, unknown, Change, create_dir_all, remove_file, write_new,
  symlink, Disk, Session, guest_init_path, script_path, Texts, Edit, try_change, continue, then_do,
  replace_at, replace, inject_init_script, install_at, install_init, prepare_init,
}

-- A change of a place below the rootfs, that no symlink leads to.
abbrev pub IsConfined : (List String → Bool) → Change → Type 0
IsConfined is_symlink (create_dir_all path) = Solid is_symlink path
IsConfined is_symlink (remove_file path) = IsInside is_symlink path
IsConfined is_symlink (write_new mode contents path) = IsInside is_symlink path
IsConfined is_symlink (symlink target path) = IsInside is_symlink path

module _ (D : Disk) (rootfs : String) (P : Change → Type 0) where
  -- An edit that makes only changes of which `P` holds.
  record Keeps (m : Edit D rootfs) : Type 0 where
    at : (s : Session D) → All P s.changes → All P (m s).1.changes

  try_change-Keeps :
      (error : String → DriverError) (c : Change) → P c → Keeps (try_change D rootfs error c)
  unfolding try_change
  try_change-Keeps error c p = record { at = λ s h. (p, h) }

  continue-Keeps :
      (r : Result DriverError (Unit {0})) (m : Edit D rootfs)
      → Keeps m
      → Keeps (continue D rootfs r m)
  continue-Keeps (ok _) m k = k
  continue-Keeps (err e) m k = record { at = λ s h. h }

  then_do-Keeps : (m n : Edit D rootfs) → Keeps m → Keeps n → Keeps (then_do D rootfs m n)
  unfolding then_do
  then_do-Keeps m n k l = record { at = λ s h. (continue-Keeps (m s).0 n l).at (m s).1 (k.at s h) }

  replace_at-Keeps :
      (t : Texts) (path : List String) (c : Change)
      → P (remove_file path)
      → P c
      → (st : Stat) → Keeps (replace_at D rootfs t path c st)
  replace_at-Keeps t path c p q directory = record { at = λ s h. h }
  replace_at-Keeps t path c p q other =
      then_do-Keeps _ _ (try_change-Keeps _ (remove_file path) p) (try_change-Keeps _ c q)
  replace_at-Keeps t path c p q not_found = try_change-Keeps _ c q
  replace_at-Keeps t path c p q (unknown e) = record { at = λ s h. h }

  replace-Keeps :
      (t : Texts) (path : List String) (c : Change)
      → P (remove_file path)
      → P c
      → Keeps (replace D rootfs t path c)
  unfolding replace
  replace-Keeps t path c p q = record {
    at = λ s h. (replace_at-Keeps t path c p q (D.stat s.state path)).at s h;
  }

script_path-IsInside : (is_symlink : List String → Bool) → IsInside is_symlink script_path
unfolding all_chars
script_path-IsInside is_symlink = ((refl, refl, refl, refl), tt)

inject_init_script-Keeps :
    (D : Disk) (rootfs contents : String) (is_symlink : List String → Bool)
    → Keeps D rootfs (IsConfined is_symlink) (inject_init_script D rootfs contents)
unfolding inject_init_script
inject_init_script-Keeps D rootfs contents is_symlink =
    replace-Keeps D rootfs (IsConfined is_symlink) _ script_path
      (write_new 0x1ED contents script_path) (script_path-IsInside is_symlink)
      (script_path-IsInside is_symlink)

module _ (D : Disk) (rootfs : String) (is_symlink : List String → Bool) where
  above-Solid : (path : List String) → IsInside is_symlink path → Solid is_symlink (pop path)
  above-Solid [] h = elim h [ ]
  above-Solid (name ∷ there) h = h.1

  install_at-Keeps :
      (r : Result DriverError (List String))
      → ((path : List String) → r ≡ ok path → IsInside is_symlink path)
      → Keeps D rootfs (IsConfined is_symlink) (install_at D rootfs r)
  install_at-Keeps (err e) h = record { at = λ s k. k }
  install_at-Keeps (ok init) h =
      then_do-Keeps D rootfs (IsConfined is_symlink) _ _
        (try_change-Keeps D rootfs (IsConfined is_symlink) _ (create_dir_all (pop init))
          (above-Solid init (h init refl)))
        (replace-Keeps D rootfs (IsConfined is_symlink) _ init (symlink _ init) (h init refl)
          (h init refl))

-- Whatever an image holds: the script is removed and written only where no symlink leads, and so is
-- what `install_init` changes, as the symlinks are when it begins. All of it lies below the rootfs.
pub prepare_init-IsConfined :
    (D : Disk) (rootfs : String) (debug : String → String) (contents : String) (s : Session D)
    → s.changes ≡ []
    → All
        (IsConfined (D.is_symlink (inject_init_script D rootfs contents s).1.state))
        (prepare_init D rootfs debug contents s).1.changes
unfolding prepare_init then_do install_init
prepare_init-IsConfined D rootfs debug contents s fresh =
    let (r, v) = inject_init_script D rootfs contents s in
    let is_symlink = D.is_symlink v.state in
    let start : All (IsConfined is_symlink) s.changes =
      subst (All (IsConfined is_symlink)) (sym fresh) tt in
    let injected = (inject_init_script-Keeps D rootfs contents is_symlink).at s start in
    rest r v injected
  where
    rest :
        (r : Result DriverError (Unit {0})) (v : Session D)
        → All (IsConfined (D.is_symlink v.state)) v.changes
        → All
            (IsConfined (D.is_symlink v.state))
            (continue D rootfs r (install_init D rootfs debug) v).1.changes
    rest (err e) v h = h
    rest (ok _) v h =
        (install_at-Keeps D rootfs (D.is_symlink v.state) _ (
            resolve_in_rootfs-IsInside debug (D.is_symlink v.state) (D.read_link v.state) rootfs
              guest_init_path)).at
          v h
