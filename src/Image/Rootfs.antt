-- ===== src/Image/Rootfs.antt =====
-- crates/openshell-driver-lxd/src/image.rs, `resolve_in_rootfs`, and the components of a path as
-- `std::path` gives them. A path below the rootfs is the list of its names, the last one first.
pub mod Walk
pub mod Solid
use openshell_driver_lxd.Common.{
  ℕ, zero, suc, String, ◌<>◌, List, [], ◌∷◌, ◌++◌, Option, none, some, Bool, true, false, ◌==◌,
  string_eq, if◌then◌else◌, ◌&&◌, not,
}
use openshell_driver_lxd.Common.Text.{is_empty, split, starts_with}
use openshell_driver_lxd.Lxd.Types.{Result, ok, err}
use openshell_driver_lxd.Errors.{DriverError, image_import}

-- `std::path::Component`, without the prefixes of Windows.
pub data Component : Type 0 where
  root_dir cur_dir parent_dir : Component
  normal : String → Component

-- The component of a piece between slashes, for any piece but the first.
unfoldable pub piece : String → Option Component
piece p =
    if is_empty p
    then none
    else if p == "."
    then none
    else if p == ".."
    then some parent_dir
    else some (normal p)

abbrev pub prepend : Option Component → List Component → List Component
prepend none cs = cs
prepend (some c) cs = c ∷ cs

unfoldable pub pieces : List String → List Component
pieces [] = []
pieces (p ∷ ps) = prepend (piece p) (pieces ps)

-- `Path::is_absolute`
unfoldable pub is_absolute : String → Bool
is_absolute path = starts_with path "/"

abbrev pub relative : List String → List Component
relative [] = []
relative (p ∷ ps) = if p == "." then cur_dir ∷ pieces ps else pieces (p ∷ ps)

-- `Path::components`: a `.` counts only at the head of a relative path.
unfoldable pub components : String → List Component
components path =
    if is_absolute path then root_dir ∷ pieces (split b'/' path) else relative (split b'/' path)

-- A path as the components before its last one, and that one if it is a name: `parent` and
-- `file_name`.
unfoldable pub split_last : List Component → Option (List Component × String)
split_last [] = none
split_last (c ∷ []) = elim c [ normal name ↦ some ([], name) | _ ↦ none ]
split_last (c ∷ d ∷ cs) = elim (split_last (d ∷ cs)) [
  | none ↦ none
  | some (before, name) ↦ some (c ∷ before, name)
]

-- `MAX_SYMLINK_HOPS`
abbrev pub max_symlink_hops : ℕ
max_symlink_hops = 40

-- `PathBuf::pop`
abbrev pub pop : List String → List String
pop [] = []
pop (name ∷ above) = above

-- A path below `rootfs` as a text, by `Path::join`.
unfoldable pub host_path : String → List String → String
host_path rootfs [] = rootfs
host_path rootfs (name ∷ above) = host_path rootfs above <> ("/" <> name)

-- What the host says of a path below the rootfs: whether `symlink_metadata` finds a symlink there, and
-- what `read_link` answers. `debug` is the debug form of a text.
module _ (debug : String → String) (is_symlink : List String → Bool)
    (read_link : List String → Result String String) (rootfs guest_path : String) where
  abbrev pub too_many : DriverError
  too_many = image_import ("too many symlinks resolving " <> (debug guest_path <> " in the image"))

  abbrev pub unreadable : List String → String → DriverError
  unreadable candidate e =
      image_import ("failed to read symlink " <> (host_path rootfs candidate <> (": " <> e)))

  -- The loop, with the hops that are left. `pending` holds components, where the source holds their
  -- texts and takes the component of each again.
  unfoldable pub resolve :
      ℕ → (pending : List Component) (resolved : List String) → Result DriverError (List String)
  resolve left [] resolved = ok resolved
  resolve left (root_dir ∷ pending) resolved = resolve left pending resolved
  resolve left (cur_dir ∷ pending) resolved = resolve left pending resolved
  resolve left (parent_dir ∷ pending) resolved = resolve left pending (pop resolved)
  resolve zero (normal name ∷ pending) resolved = elim (is_symlink (name ∷ resolved)) [
    | false ↦ resolve zero pending (name ∷ resolved)
    | true ↦ err too_many
  ]
  resolve (suc left) (normal name ∷ pending) resolved = elim (is_symlink (name ∷ resolved)) [
    | false ↦ resolve (suc left) pending (name ∷ resolved)
    | true ↦ elim (read_link (name ∷ resolved)) [
      | err e ↦ err (unreadable (name ∷ resolved) e)
      | ok target ↦
          resolve left (components target ++ pending) (if is_absolute target then [] else resolved)
    ]
  ]

  abbrev pub below : String → Result DriverError (List String) → Result DriverError (List String)
  below file_name (ok resolved) = ok (file_name ∷ resolved)
  below file_name (err e) = err e

  -- The path below the rootfs that `guest_path` names.
  unfoldable pub resolve_in_rootfs : Result DriverError (List String)
  resolve_in_rootfs = elim (split_last (components guest_path)) [
    | none ↦ err (image_import (debug guest_path <> " does not name a file"))
    | some (parent, file_name) ↦ below file_name (resolve max_symlink_hops parent [])
  ]
