-- ===== src/Tests/Converts.antt =====
-- The theorems on the supervisor's binary, the init of an image and its upload, at concrete inputs.
use openshell_driver_lxd.Common.{
  ◌≡◌, refl, String, ◌<>◌, List, [], ◌∷◌, All, Option, some, Bool, true, false, nat_eq, string_eq,
  ◌⊎◌,
}
use openshell_driver_lxd.Common.Text.{starts_with, strip_prefix, split}
use openshell_driver_lxd.Lxd.{
  Lxd, Request, Response, create_image_from_split, create_image_alias, wait_for,
}
use openshell_driver_lxd.Lxd.Types.{LxdError, Result, ok, err, io, Operation}
use openshell_driver_lxd.Lxd.Actions.{World}
use openshell_driver_lxd.Errors.{image_import}
use openshell_driver_lxd.Driver.Checks.{validate_reference}
use openshell_driver_lxd.Image.Manifest.{Json, text, object, field, end}
use openshell_driver_lxd.Image.Supervisor.{
  Files, Importer, IsOwnExecutable, extract_supervisor_binary, is_valid_cached_binary,
  extract_supervisor_binary-ok,
}
use openshell_driver_lxd.Gc.{clean}
use openshell_driver_lxd.Image.Rootfs.{
  resolve_in_rootfs, resolve, split_last, components, pieces, piece, is_absolute,
}
use openshell_driver_lxd.Image.Init.{
  write_new, script_path, other, not_found, Disk, Session, guest_init_path, inject_init_script,
  install_init, prepare_init, replace, try_change, then_do,
}
use openshell_driver_lxd.Image.Init.Confined.{IsConfined, prepare_init-IsConfined}
use openshell_driver_lxd.Image.Init.Outcome.{Replaced, Linked, prepare_init-Installed}
use openshell_driver_lxd.Image.Import.{Converted}
use openshell_driver_lxd.Image.Import.Bound.{Bound}
use openshell_driver_lxd.Tests.{done, quoted}

-- A host where every path is an executable of the driver's user.
abbrev files : Files
files = record {
  metadata = λ path. ok (record { is_symlink = false; is_file = true; uid = 7; mode = 0x1ED });
  open_file = λ path. ok path;
  read_to_end = λ file. ok [];
  current_uid = 7;
  sha256 = λ bytes. bytes;
  join = λ a b. a <> ("/" <> b);
}

abbrev importer : Importer
importer = record {
  resolve_digest = λ reference. ok "sha256:ab";
  extract = λ reference cache_dir. err (image_import "not reached");
}

extract_supervisor_binary-ok_example :
    (importer.extract "supervisor:1" "/cache" ≡ ok ("/cache/ab/openshell-sandbox", "sha256:ab"))
    ⊎ ((importer.resolve_digest "supervisor:1" ≡ ok "sha256:ab")
        × ("/cache/ab/openshell-sandbox"
            ≡ files.join (files.join "/cache" (clean "sha256:ab")) "openshell-sandbox")
        × IsOwnExecutable files "/cache/ab/openshell-sandbox")
unfolding extract_supervisor_binary is_valid_cached_binary validate_reference clean strip_prefix
extract_supervisor_binary-ok_example =
    extract_supervisor_binary-ok files importer quoted (λ reference. true) "supervisor:1" "/cache"
      "/cache/ab/openshell-sandbox" "sha256:ab" refl

-- An image with a symlink at the script's place, and nothing else.
abbrev disk : Disk
disk = record {
  State = Unit;
  is_symlink = λ s path. false;
  read_link = λ s path. err "not a symlink";
  stat = λ s path. elim path [ name ∷ [] ↦ other | _ ↦ not_found ];
  apply = λ c s. (ok tt, s);
}

abbrev untouched : Session disk
untouched = record { state = tt; changes = [] }

prepare_init-IsConfined_example :
    All
      (IsConfined (disk.is_symlink (inject_init_script disk "/rootfs" "#!" untouched).1.state))
      (prepare_init disk "/rootfs" quoted "#!" untouched).1.changes
prepare_init-IsConfined_example = prepare_init-IsConfined disk "/rootfs" quoted "#!" untouched refl

prepare_init-Installed_example :
    (injected : Session disk) × (init : List String) × Replaced disk script_path
      (write_new 0x1ED "#!" script_path)
      untouched
      injected
    × (resolve_in_rootfs quoted
          (disk.is_symlink injected.state)
          (disk.read_link injected.state)
          "/rootfs"
          guest_init_path
        ≡ ok init)
    × Linked disk "/rootfs" init injected (prepare_init disk "/rootfs" quoted "#!" untouched).1
unfolding prepare_init inject_init_script install_init replace try_change then_do resolve_in_rootfs
    resolve split_last components pieces piece is_absolute starts_with strip_prefix split
prepare_init-Installed_example =
    prepare_init-Installed disk "/rootfs" quoted "#!" untouched
      (prepare_init disk "/rootfs" quoted "#!" untouched).1 refl

-- An LXD that takes the image and its alias, and refuses all else.
abbrev taking_answer : (r : Request) → Unit {0} → Result LxdError (Response r) × Unit {0}
taking_answer (create_image_from_split metadata_filename metadata_bytes rootfs_filename path) s =
    (ok done, s)
taking_answer (wait_for id) s = (ok done, s)
taking_answer (create_image_alias alias target_fingerprint description) s = (ok tt, s)
taking_answer _ s = (err (io "refused"), s)

abbrev taking : Lxd
taking = record {
  State = Unit;
  answer = taking_answer;
  sleep = λ millis s. s;
  read_file = λ path s. (err "no file", s);
  holders = λ name s. 0;
}

abbrev converted : Converted
converted = record {
  digest = "sha256:ab";
  alias = "openshell-r3-ab";
  metadata_tar = 1 ∷ [];
  squashfs_path = "/work/rootfs.squashfs";
}

abbrev metadata : Operation → Option Json
metadata op = some (object (field "fingerprint" (text "cd") end))

abbrev display_error : LxdError → String
display_error e = ""

abbrev never_late : Request → Unit {0} → Bool
never_late r s = false

abbrev before : World taking
before = record { state = tt; calls = []; locks = [] }

abbrev after : World taking
after = record {
  state = tt;
  calls =
      create_image_alias "openshell-r3-ab" "cd" (some "OpenShell image sha256:ab")
      ∷ wait_for "op"
      ∷ create_image_from_split "metadata.tar.xz" (1 ∷ []) "rootfs.squashfs" "/work/rootfs.squashfs"
      ∷ [];
  locks = [];
}
