-- ===== src/Tests/Images.antt =====
-- The theorems on images, at concrete inputs.
use openshell_driver_lxd.Common.{
  ◌≡◌, refl, ℕ, ◌≤◌, String, ◌<>◌, List, [], ◌∷◌, some, Bool, true, false, ◌↔◌, ◌==◌, string_eq,
  arith,
}
use openshell_driver_lxd.Common.Text.{split, starts_with, strip_prefix, all_chars}
use openshell_driver_lxd.Lxd.Types.{Result, ok}
use openshell_driver_lxd.Image.Owner.{
  decode_rootless_owner, decode_fields, read_varint, take_field, stored_id,
}
use openshell_driver_lxd.Image.Owner.Encoding.{Field, message, last_id}
use openshell_driver_lxd.Image.Owner.RoundTrip.{decode_rootless_owner-message}
use openshell_driver_lxd.Image.Rootfs.{
  Component, root_dir, normal, components, split_last, resolve_in_rootfs, resolve, piece, pieces,
  is_absolute, max_symlink_hops,
}
use openshell_driver_lxd.Image.Rootfs.Walk.{Walk, resolve_in_rootfs-Walk}
use openshell_driver_lxd.Image.Rootfs.Solid.{IsInside, resolve_in_rootfs-IsInside}
use openshell_driver_lxd.Image.Reference.{repo_path, inspect_target}
use openshell_driver_lxd.Image.Reference.Parts.{
  Parts, reference, path, pin, inspect_target-reference,
}
use openshell_driver_lxd.Image.Manifest.{
  Json, text, array, object, Items, nil, cons, end, field, select_arch_digest, field_of,
}
use openshell_driver_lxd.Image.Manifest.Selection.{IsChoice, select_arch_digest-IsChoice}

abbrev fields : List Field
fields =
    record { number = 1; value = 1000 }
    ∷ record { number = 2; value = 0xFFFF_FFFF }
    ∷ record { number = 1; value = 7 }
    ∷ []

decode_rootless_owner-message_example :
    decode_rootless_owner (message fields) ≡ some (last_id 1 0 fields, last_id 2 0 fields)
decode_rootless_owner-message_example =
    decode_rootless_owner-message fields
      ((omega arith, omega arith), ((omega arith, omega arith), ((omega arith, omega arith), tt)))

decoded : decode_rootless_owner (8 ∷ 232 ∷ 7 ∷ 16 ∷ 0 ∷ []) ≡ some (1000, 0)
unfolding decode_rootless_owner decode_fields read_varint take_field stored_id
decoded = refl

-- An image whose `/bin` links to `usr/bin`.
abbrev is_symlink : List String → Bool
is_symlink (name ∷ []) = name == "bin"
is_symlink _ = false

abbrev read_link : List String → Result String String
read_link at = ok "usr/bin"

abbrev quoted : String → String
quoted s = s

abbrev in_bin : List Component
in_bin = root_dir ∷ normal "bin" ∷ []

in_bin-split : split_last (components "/bin/sh") ≡ some (in_bin, "sh")
unfolding split_last components is_absolute starts_with split piece pieces strip_prefix
in_bin-split = refl

resolve_in_rootfs-Walk_example :
    (resolve_in_rootfs quoted is_symlink read_link "/rootfs" "/bin/sh"
      ≡ ok ("sh" ∷ "bin" ∷ "usr" ∷ []))
    ↔ ((hops : ℕ) × (hops ≤ max_symlink_hops)
        × Walk is_symlink read_link hops in_bin [] ("bin" ∷ "usr" ∷ []))
resolve_in_rootfs-Walk_example =
    resolve_in_rootfs-Walk quoted is_symlink read_link "/rootfs" "/bin/sh" in_bin "sh"
      ("bin" ∷ "usr" ∷ []) in_bin-split

resolved :
    resolve_in_rootfs quoted is_symlink read_link "/rootfs" "/bin/sh"
    ≡ ok ("sh" ∷ "bin" ∷ "usr" ∷ [])
unfolding resolve_in_rootfs resolve split_last components is_absolute starts_with split piece pieces
    strip_prefix
resolved = refl

resolve_in_rootfs-IsInside_example : IsInside is_symlink ("sh" ∷ "bin" ∷ "usr" ∷ [])
resolve_in_rootfs-IsInside_example =
    resolve_in_rootfs-IsInside quoted is_symlink read_link "/rootfs" "/bin/sh"
      ("sh" ∷ "bin" ∷ "usr" ∷ []) resolved

abbrev parts : Parts
parts = record {
  scheme = true;
  parent = some "localhost:5000/team";
  last = "tool";
  tag = some "v1";
  digest = some "00ff";
}

inspect_target-reference_example :
    (repo_path (reference parts) ≡ path parts)
    × (inspect_target (reference parts) ≡ "docker://" <> (path parts <> pin parts))
unfolding all_chars strip_prefix
inspect_target-reference_example =
    inspect_target-reference parts
      (record { parent = refl; last = (refl, refl, refl); tag = (refl, refl, refl); digest = refl })
      refl

abbrev entry : String → String → Json
entry arch digest = object (
    field "digest" (text digest) (
      field "platform" (object (field "os" (text "linux") (field "architecture" (text arch) end)))
        end))

abbrev entries : Items
entries = cons (entry "arm64" "sha256:a") (cons (entry "amd64" "sha256:b") nil)

abbrev parse : List ℕ → Result String Json
parse raw = ok (object (field "manifests" (array entries) end))

select_arch_digest-IsChoice_example :
    IsChoice "linux" "amd64" entries (select_arch_digest parse (λ raw. raw) [] "linux" "amd64")
unfolding field_of
select_arch_digest-IsChoice_example =
    select_arch_digest-IsChoice parse (λ raw. raw) [] "linux" "amd64"
      (object (field "manifests" (array entries) end)) entries refl refl
