-- ===== src/Image/Manifest.antt =====
-- crates/openshell-driver-lxd/src/image.rs, `select_arch_digest`: the choice of a manifest from an image
-- index. The JSON parser and SHA-256 are parameters.
pub mod Selection
use openshell_driver_lxd.Common.{
  ℕ, ◌+◌, ◌/◌, ◌%◌, String, ◌<>◌, List, [], ◌∷◌, Option, none, some, Bool, true, false, ◌&&◌, ◌==◌,
  string_eq, leb, if◌then◌else◌,
}
use openshell_driver_lxd.Lxd.Types.{Result, ok, err}
use openshell_driver_lxd.Errors.{DriverError, image_import}

-- `serde_json::Value`. A number is kept as its text.
mutual
  pub data Json : Type 0 where
    null : Json
    boolean : Bool → Json
    number : String → Json
    text : String → Json
    array : Items → Json
    object : Fields → Json

  pub data Items : Type 0 where
    nil : Items
    cons : Json → Items → Items

  pub data Fields : Type 0 where
    end : Fields
    field : String → Json → Fields → Fields

unfoldable pub field_of : String → Fields → Option Json
field_of key end = none
field_of key (field k v rest) = if k == key then some v else field_of key rest

-- `get(key)`
abbrev pub get : String → Json → Option Json
get key (object fields) = field_of key fields
get key _ = none

-- `and_then(|v| v.get(key))`
abbrev pub get_in : String → Option Json → Option Json
get_in key none = none
get_in key (some v) = get key v

-- `and_then(|v| v.as_str())`, `and_then(|v| v.as_array())`
abbrev pub as_str : Option Json → Option String
as_str (some (text s)) = some s
as_str _ = none

abbrev pub as_array : Option Json → Option Items
as_array (some (array items)) = some items
as_array _ = none

-- `entry_os == Some(os)`
abbrev pub is_text : Option String → String → Bool
is_text none s = false
is_text (some t) s = t == s

abbrev pub platform_is : String → String → Json → Bool
platform_is os arch entry =
    let platform = get "platform" entry in
    is_text (as_str (get_in "os" platform)) os
    && is_text (as_str (get_in "architecture" platform)) arch

abbrev pub digest_in : Json → Option String
digest_in entry = as_str (get "digest" entry)

-- The digest of an entry for the platform, if the entry is one and has a digest.
abbrev pub offer : String → String → Json → Option String
offer os arch entry = if platform_is os arch entry then digest_in entry else none

abbrev pub or_else : Option String → Option String → Option String
or_else none later = later
or_else (some digest) later = some digest

-- The loop over the entries.
unfoldable pub first_offer : String → String → Items → Option String
first_offer os arch nil = none
first_offer os arch (cons entry rest) = or_else (offer os arch entry) (first_offer os arch rest)

-- `{b:02x}` for a byte, and `hex_digest`.
abbrev pub hex_digit : ℕ → String
hex_digit n =
    if leb n 0
    then "0"
    else if leb n 1
    then "1"
    else if leb n 2
    then "2"
    else if leb n 3
    then "3"
    else if leb n 4
    then "4"
    else if leb n 5
    then "5"
    else if leb n 6
    then "6"
    else if leb n 7
    then "7"
    else if leb n 8
    then "8"
    else if leb n 9
    then "9"
    else if leb n 10
    then "a"
    else if leb n 11
    then "b"
    else if leb n 12
    then "c"
    else if leb n 13
    then "d"
    else if leb n 14
    then "e"
    else "f"

unfoldable pub hex_digest : List ℕ → String
hex_digest [] = ""
hex_digest (b ∷ bytes) = hex_digit (b / 16) <> (hex_digit (b % 16) <> hex_digest bytes)

abbrev pub or_missing : String → String → Option String → Result DriverError String
or_missing os arch none =
    err (image_import ("image index has no " <> (os <> ("/" <> (arch <> " manifest")))))
or_missing os arch (some digest) = ok digest

module _ (parse : List ℕ → Result String Json) (sha256 : List ℕ → List ℕ) where
  abbrev pub choose : List ℕ → String → String → Option Items → Result DriverError String
  choose raw os arch none = ok ("sha256:" <> hex_digest (sha256 raw))
  choose raw os arch (some manifests) = or_missing os arch (first_offer os arch manifests)

  abbrev pub select_in : List ℕ → String → String → Result String Json → Result DriverError String
  select_in raw os arch (err e) =
      err (image_import ("failed to parse image manifest as JSON: " <> e))
  select_in raw os arch (ok doc) = choose raw os arch (as_array (get "manifests" doc))

  unfoldable pub select_arch_digest : List ℕ → String → String → Result DriverError String
  select_arch_digest raw os arch = select_in raw os arch (parse raw)
