-- ===== src/Tests/Cleanup.antt =====
-- The theorems on the clean-up, at the toy LXD.
use openshell_driver_lxd.Common.{String, ◌<>◌, List, [], ◌∷◌}
use openshell_driver_lxd.Lxd.Types.{Image}

abbrev digest : String
digest = "0123456789abcdef0123456789abcdef0123456789abcdef0123456789abcdef"

abbrev current : Image
current = record {
  fingerprint = "f";
  project = "default";
  aliases = "other" ∷ ("oci-r3-" <> digest) ∷ [];
}

abbrev in_use : List String
in_use = "openshell-supervisor-1" ∷ []
