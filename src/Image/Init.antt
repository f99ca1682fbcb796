-- ===== src/Image/Init.antt =====
-- crates/openshell-driver-lxd/src/image.rs: `inject_init_script` and `install_init`, which put the
-- init script into an unpacked image. A path below the rootfs is the list of its names, the last one
-- first. The file system is a parameter; the changes that were tried are kept, the last one first.
pub mod Confined
pub mod Outcome
use openshell_driver_lxd.Common.{ℕ, String, ◌<>◌, List, [], ◌∷◌, Bool}
use openshell_driver_lxd.Lxd.Types.{Result, ok, err}
use openshell_driver_lxd.Errors.{DriverError, image_import}
use openshell_driver_lxd.Image.Rootfs.{host_path, pop, resolve_in_rootfs}

-- What `symlink_metadata` says of a path.
pub data Stat : Type 0 where
  directory other not_found : Stat
  unknown : String → Stat

-- A change of the file system: `create_dir_all`, `remove_file`, the opening of a new file (`create_new`)
-- of some mode with the writing of its contents, and `symlink`.
pub data Change : Type 0 where
  create_dir_all remove_file : (path : List String) → Change
  write_new : (mode : ℕ) (contents : String) (path : List String) → Change
  symlink : (target : String) (path : List String) → Change

pub record Disk : Type 1 where
  pub State : Type 0
  pub is_symlink : State → List String → Bool
  pub read_link : State → List String → Result String String
  pub stat : State → List String → Stat
  pub apply : Change → State → Result String (Unit {0}) × State

pub record Session (D : Disk) : Type 0 where
  pub state : D.State
  pub changes : List Change

abbrev pub guest_init_script_path : String
guest_init_script_path = "/openshell-init.sh"

abbrev pub guest_init_path : String
guest_init_path = "/sbin/init"

-- `rootfs_dest.join(GUEST_INIT_SCRIPT_PATH.trim_start_matches('/'))`
abbrev pub script_path : List String
script_path = "openshell-init.sh" ∷ []

-- The texts of the errors before and after the path, for a stat, a removal and a creation; and the text
-- for a directory that is in the way.
pub record Texts : Type 0 where
  pub stat : String
  pub removal : String
  pub removal_end : String
  pub creation : String
  pub directory : String

module _ (D : Disk) (rootfs : String) where
  abbrev pub Edit : Type 0
  Edit = Session D → Result DriverError (Unit {0}) × Session D

  abbrev pub error_at : String → List String → String → String → DriverError
  error_at what path end e = image_import (what <> (host_path rootfs path <> (end <> (": " <> e))))

  abbrev pub or_error :
      (String → DriverError) → Result String (Unit {0}) → Result DriverError (Unit {0})
  or_error error (ok _) = ok tt
  or_error error (err e) = err (error e)

  unfoldable pub try_change : (String → DriverError) → Change → Edit
  try_change error c s =
      let (r, state) = D.apply c s.state in
      (or_error error r, record { state = state; changes = c ∷ s.changes })

  abbrev pub continue : Result DriverError (Unit {0}) → Edit → Edit
  continue (ok _) m s = m s
  continue (err e) m s = (err e, s)

  unfoldable pub then_do : Edit → Edit → Edit
  then_do m n s = let (r, v) = m s in continue r n v

  -- Whatever is at a path, unless it is a directory, is removed, and the new file or link is created.
  abbrev pub replace_at : Texts → List String → Change → Stat → Edit
  replace_at t path c directory s = (err (image_import t.directory), s)
  replace_at t path c other s =
      then_do (try_change (error_at t.removal path t.removal_end) (remove_file path))
        (try_change (error_at t.creation path "") c) s
  replace_at t path c not_found s = try_change (error_at t.creation path "") c s
  replace_at t path c (unknown e) s = (err (error_at t.stat path "" e), s)

  unfoldable pub replace : Texts → List String → Change → Edit
  replace t path c s = replace_at t path c (D.stat s.state path) s

  abbrev pub script_texts : Texts
  script_texts = record {
    stat = "failed to stat ";
    removal = "failed to remove ";
    removal_end = " from the image";
    creation = "failed to write init script to ";
    directory = "the image has a directory at /openshell-init.sh";
  }

  -- `contents` is the script.
  unfoldable pub inject_init_script : String → Edit
  inject_init_script contents =
      replace script_texts script_path (write_new 0x1ED contents script_path)

  abbrev pub init_texts : Texts
  init_texts = record {
    stat = "failed to stat ";
    removal = "failed to remove ";
    removal_end = "";
    creation = "failed to create ";
    directory = "the image has a directory at /sbin/init";
  }

  abbrev pub install_at : Result DriverError (List String) → Edit
  install_at (err e) s = (err e, s)
  install_at (ok init) s =
      then_do
        (try_change (error_at "failed to create the parent of " init "")
          (create_dir_all (pop init)))
        (replace init_texts init (symlink guest_init_script_path init)) s

  -- `debug` is the debug form of a text.
  unfoldable pub install_init : (String → String) → Edit
  install_init debug s =
      install_at
        (resolve_in_rootfs debug (D.is_symlink s.state) (D.read_link s.state) rootfs
          guest_init_path)
        s

  -- The two steps, as `import` makes them.
  unfoldable pub prepare_init : (String → String) → String → Edit
  prepare_init debug contents = then_do (inject_init_script contents) (install_init debug)
