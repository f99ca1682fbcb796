-- ===== src/Image/Rootfs/Solid.antt =====
-- crates/openshell-driver-lxd/src/image.rs, `resolve_in_rootfs`: where its answers lie.
use openshell_driver_lxd.Common.{
  ℕ, suc, ◌≡◌, refl, subst, String, ◌<>◌, List, [], ◌∷◌, ◌++◌, Option, none, some, Bool, false, All,
  All-append, Bool-cases, inl, inr, ◌==◌, string_eq,
}
use openshell_driver_lxd.Common.Text.{is_empty, Lacks, split-Lacks}
use openshell_driver_lxd.Lxd.Types.{Result, ok, err}
use openshell_driver_lxd.Errors.{DriverError, image_import}
use openshell_driver_lxd.Image.Rootfs.{
  Component, root_dir, cur_dir, parent_dir, normal, piece, pieces, is_absolute, components, pop,
  prepend, below, relative, split_last, resolve, resolve_in_rootfs, max_symlink_hops,
}
use openshell_driver_lxd.Image.Rootfs.Walk.{
  Walk, arrived, enter, follow, up, from_root, stay, split_last-append, resolve_in_rootfs-Walk,
  names_file,
}

-- A name of an entry of a directory: it neither leaves that directory nor passes through another.
abbrev pub IsName : String → Type 0
IsName name =
    (is_empty name ≡ false) × ((name == ".") ≡ false) × ((name == "..") ≡ false) × Lacks b'/' name

abbrev Named : Component → Type 0
Named root_dir = Unit
Named cur_dir = Unit
Named parent_dir = Unit
Named (normal name) = IsName name

piece-Named :
    (p : String) (cs : List Component)
    → Lacks b'/' p
    → All Named cs
    → All Named (prepend (piece p) cs)
unfolding piece
piece-Named p cs h k = elim (Bool-cases (is_empty p)) [
  | inl e ↦ rw e k
  | inr filled ↦ elim (Bool-cases (p == ".")) [
    | inl e ↦ rw (filled, e) k
    | inr not_here ↦ elim (Bool-cases (p == "..")) [
      | inl e ↦ rw (filled, not_here, e) (tt, k)
      | inr not_up ↦ rw (filled, not_here, not_up) ((filled, not_here, not_up, h), k)
    ]
  ]
]

pieces-Named : (ps : List String) → All (Lacks b'/') ps → All Named (pieces ps)
unfolding pieces
pieces-Named [] h = tt
pieces-Named (p ∷ ps) h = piece-Named p (pieces ps) h.0 (pieces-Named ps h.1)

relative-Named : (ps : List String) → All (Lacks b'/') ps → All Named (relative ps)
relative-Named [] h = tt
relative-Named (p ∷ ps) h = elim (Bool-cases (p == ".")) [
  | inl e ↦ rw e (tt, pieces-Named ps h.1)
  | inr e ↦ rw e (pieces-Named (p ∷ ps) h)
]

components-Named : (path : String) → All Named (components path)
unfolding components
components-Named path = elim (Bool-cases (is_absolute path)) [
  | inl e ↦ rw e (tt, pieces-Named _ (split-Lacks b'/' path))
  | inr e ↦ rw e (relative-Named _ (split-Lacks b'/' path))
]

module _ (is_symlink : List String → Bool) where
  -- Every step down from the rootfs is to a name, which is no symlink.
  abbrev pub Solid : List String → Type 0
  Solid [] = Unit
  Solid (name ∷ above) = IsName name × (is_symlink (name ∷ above) ≡ false) × Solid above

  pop-Solid : (at : List String) → Solid at → Solid (pop at)
  pop-Solid [] h = tt
  pop-Solid (name ∷ above) h = h.2

  Walk-Solid :
      (read_link : List String → Result String String) (hops : ℕ) (cs : List Component)
      (at there : List String)
      → All Named cs
      → Solid at
      → Walk is_symlink read_link hops cs at there
      → Solid there
  Walk-Solid read_link hops [] at there h k (arrived e) = subst Solid e k
  Walk-Solid read_link hops (normal name ∷ cs) at there h k (enter no_link w) =
      Walk-Solid read_link hops cs (name ∷ at) there h.1 (h.0, no_link, k) w
  Walk-Solid read_link (suc hops) (normal name ∷ cs) at there h k (follow target link e w) =
      Walk-Solid read_link hops (components target ++ cs) at there
        (All-append Named (components target) cs (components-Named target) h.1) k w
  Walk-Solid read_link hops (parent_dir ∷ cs) at there h k (up w) =
      Walk-Solid read_link hops cs (pop at) there h.1 (pop-Solid at k) w
  Walk-Solid read_link hops (root_dir ∷ cs) at there h k (from_root w) =
      Walk-Solid read_link hops cs [] there h.1 tt w
  Walk-Solid read_link hops (cur_dir ∷ cs) at there h k (stay w) =
      Walk-Solid read_link hops cs at there h.1 k w

front-Named : (cs ds : List Component) → All Named (cs ++ ds) → All Named cs
front-Named [] ds h = tt
front-Named (c ∷ cs) ds h = (h.0, front-Named cs ds h.1)

back-Named : (cs ds : List Component) → All Named (cs ++ ds) → All Named ds
back-Named [] ds h = h
back-Named (c ∷ cs) ds h = back-Named cs ds h.1

-- A path that names something below the rootfs, in a directory that is reached by names alone.
abbrev pub IsInside : (List String → Bool) → List String → Type 0
IsInside is_symlink [] = ⊥
IsInside is_symlink (name ∷ there) = IsName name × Solid is_symlink there

module _ (debug : String → String) (is_symlink : List String → Bool)
    (read_link : List String → Result String String) (rootfs guest_path : String) where
  abbrev resolved_path : Result DriverError (List String)
  resolved_path = resolve_in_rootfs debug is_symlink read_link rootfs guest_path

  unnamed : split_last (components guest_path) ≡ none → (e : DriverError) × (resolved_path ≡ err e)
  unfolding resolve_in_rootfs
  unnamed e =
      (image_import (debug guest_path <> " does not name a file"), rw (e, resolve_in_rootfs) refl)

  below-IsInside :
      (parent : List Component) (file_name : String) (r : Result DriverError (List String))
      (path : List String)
      → split_last (components guest_path) ≡ some (parent, file_name)
      → resolved_path ≡ below debug is_symlink read_link rootfs guest_path file_name r
      → resolved_path ≡ ok path
      → IsInside is_symlink path
  below-IsInside parent file_name (err e) path k found h = cc (found, h)
  below-IsInside parent file_name (ok there) path k found h =
      let named : All Named (parent ++ normal file_name ∷ []) =
        subst (All Named) (split_last-append _ parent file_name k) (components-Named guest_path) in
      let (hops, few, w) =
        (resolve_in_rootfs-Walk debug is_symlink read_link rootfs guest_path parent file_name there
            k).0
          found in
      let same : Path (List String) (file_name ∷ there) path = cc (found, h) in
      subst (IsInside is_symlink) same (
        (back-Named parent _ named).0,
        Walk-Solid is_symlink read_link hops parent [] there (front-Named parent _ named) tt w,
      )

  path-IsInside :
      (o : Option (List Component × String)) (path : List String)
      → split_last (components guest_path) ≡ o
      → resolved_path ≡ ok path
      → IsInside is_symlink path
  path-IsInside none path k h = cc ((unnamed k).1, h)
  path-IsInside (some (parent, file_name)) path k h =
      below-IsInside parent file_name
        (resolve debug is_symlink read_link rootfs guest_path max_symlink_hops parent []) path k
        (names_file debug is_symlink read_link rootfs guest_path parent file_name k) h

-- Whatever symlinks an image holds: a path that is resolved lies below the rootfs, all its parts are
-- names, without a slash and neither empty nor `.` nor `..`, and none of its directories is a symlink.
pub resolve_in_rootfs-IsInside :
    (debug : String → String) (is_symlink : List String → Bool)
    (read_link : List String → Result String String) (rootfs guest_path : String)
    (path : List String)
    → resolve_in_rootfs debug is_symlink read_link rootfs guest_path ≡ ok path
    → IsInside is_symlink path
resolve_in_rootfs-IsInside debug is_symlink read_link rootfs guest_path path h =
    path-IsInside debug is_symlink read_link rootfs guest_path (split_last (components guest_path))
      path refl h
