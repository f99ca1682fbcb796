-- ===== src/Image/Reference.antt =====
-- crates/openshell-driver-lxd/src/image.rs: references to OCI images, `repo_path` and
-- `inspect_target`.
pub mod Parts
use openshell_driver_lxd.Common.{String, ◌<>◌, Option, none, some, if◌then◌else◌}
use openshell_driver_lxd.Common.Text.{strip_prefix, rsplit_once, rfind}

unfoldable pub strip_docker_scheme : String → String
strip_docker_scheme reference = elim (strip_prefix reference "docker://") [
  | none ↦ reference
  | some bare ↦ bare
]

abbrev pub cut_digest : String → Option (String × String) → String
cut_digest name none = name
cut_digest name (some (before, digest)) = before

abbrev pub without_digest : String → String
without_digest name = cut_digest name (rfind "@sha256:" name)

-- A colon before the last slash belongs to the registry's port: then a slash comes after it.
abbrev pub cut_unless : String → String → Option (String × String) → String
cut_unless name before none = before
cut_unless name before (some slash) = name

abbrev pub cut_tag : String → Option (String × String) → String
cut_tag name none = name
cut_tag name (some (before, after)) = cut_unless name before (rsplit_once b'/' after)

abbrev pub without_tag : String → String
without_tag name = cut_tag name (rsplit_once b':' name)

unfoldable pub repo_path : String → String
repo_path reference = without_tag (without_digest (strip_docker_scheme reference))

abbrev pub target_of : String → Option (String × String) → String
target_of bare none = "docker://" <> bare
target_of bare (some (before, digest)) = "docker://" <> (repo_path bare <> digest)

unfoldable pub inspect_target : String → String
inspect_target reference =
    let bare = strip_docker_scheme reference in target_of bare (rfind "@sha256:" bare)
