-- ===== src/Image/Owner/RoundTrip.antt =====
-- crates/openshell-driver-lxd/src/image.rs, `decode_rootless_owner`, on messages and on any bytes.
use Prim.Native.Nat.{bit_and, bit_or}
use native.Mathlib.Nat.{div-add-mod}
use native.Mathlib.Numerals.{towards_suc}
use openshell_driver_lxd.Common.{
  ℕ, zero, suc, ◌+◌, ◌*◌, ◌/◌, ◌%◌, ◌^◌, ◌≤◌, ◌<◌, ◌≡◌, refl, ap, arith, List, [], ◌∷◌, ◌++◌,
  Option, none, some, if◌then◌else◌, Option-cases, Bool-cases, true, leb, inl, inr, ◌∙◌, length,
  length-append, All, ◌==◌, nat_eq,
}
use mathlib.Core.Option.{none-ne-some}
use openshell_driver_lxd.Common.Bits.{low_bits, top_bit, low_three_bits, bit_or_shifted}
use openshell_driver_lxd.Image.Owner.{
  read_varint, rootless_noop_id, stored_id, take_field, decode_fields, decode_rootless_owner,
}
use openshell_driver_lxd.Image.Owner.Encoding.{
  Field, IsSmall, varint, field, message, last_id, owner_of,
}

last_byte :
    (g value shift : ℕ) (rest : List ℕ)
    → g < 128
    → value < 2 ^ shift
    → read_varint (g ∷ rest) value shift ≡ some (value + g * 2 ^ shift, rest)
unfolding read_varint
last_byte g value shift rest hg hv =
    ground (arith, low_bits g, top_bit g, bit_or_shifted shift value g)

inner_byte :
    (g value shift : ℕ) (rest : List ℕ)
    → g < 128
    → shift < 29
    → value < 2 ^ shift
    → read_varint ((g + 128) ∷ rest) value shift
      ≡ read_varint rest (value + g * 2 ^ shift) (shift + 7)
unfolding read_varint
inner_byte g value shift rest hg hs hv =
    ground (arith, low_bits (g + 128), top_bit (g + 128), bit_or_shifted shift value g)

shift_seven : (s : ℕ) → 2 ^ (s + 7) ≡ 128 * 2 ^ s
shift_seven s = simp towards_suc (omega arith)

split_group : (v s : ℕ) → v * 2 ^ s ≡ v % 128 * 2 ^ s + v / 128 * 2 ^ (s + 7)
split_group v s = omega (
  arith,
  ap (λ (t : ℕ). t * 2 ^ s) (div-add-mod v 128),
  ap (λ (t : ℕ). v / 128 * t) (shift_seven s),
)

group_fits : (g value s : ℕ) → g < 128 → value < 2 ^ s → value + g * 2 ^ s < 2 ^ (s + 7)
group_fits g value s hg hv =
    let most : g * 2 ^ s ≤ 127 * 2 ^ s = grind arith in omega (arith, most, shift_seven s)

read_varint-varint :
    (k v value shift : ℕ) (rest : List ℕ)
    → v < 128 ^ suc k
    → shift + 7 * k < 36
    → value < 2 ^ shift
    → read_varint (varint k v ++ rest) value shift ≡ some (value + v * 2 ^ shift, rest)
unfolding varint
read_varint-varint zero v value shift rest hv hs h = last_byte v value shift rest hv h
read_varint-varint (suc k) v value shift rest hv hs h = ground (
  arith,
  last_byte v value shift rest,
  split_group v shift,
  group_fits (v % 128) value shift,
  inner_byte (v % 128) value shift (varint k (v / 128) ++ rest),
  read_varint-varint k (v / 128) (value + v % 128 * 2 ^ shift) (shift + 7) rest (omega arith),
)

field_step :
    (fuel : ℕ) (f : Field) (rest : List ℕ) (owner : ℕ × ℕ)
    → IsSmall f
    → decode_fields (suc fuel) (field f ++ rest) owner
      ≡ decode_fields fuel rest (take_field f.number (stored_id f.value) owner)
unfolding decode_fields
field_step fuel f rest owner h =
    ground (arith, low_three_bits (f.number * 8), read_varint-varint 4 f.value 0 0 rest)

take_field-ids :
    (number id uid gid : ℕ)
    → take_field number id (uid, gid)
      ≡ (if number == 1 then id else uid, if number == 2 then id else gid)
unfolding take_field
take_field-ids number id uid gid = ground arith

decode_fields-message :
    (fs : List Field) (fuel uid gid : ℕ)
    → All IsSmall fs
    → length (message fs) ≤ fuel
    → decode_fields fuel (message fs) (uid, gid) ≡ some (last_id 1 uid fs, last_id 2 gid fs)
unfolding message last_id stored_id
decode_fields-message [] fuel uid gid h enough = unfold decode_fields in refl
decode_fields-message (f ∷ fs) zero uid gid h enough = absurd (omega arith)
decode_fields-message (f ∷ fs) (suc fuel) uid gid h enough =
    let id = owner_of f.value in
    field_step fuel f (message fs) (uid, gid) h.0
    ∙ (ap (decode_fields fuel (message fs)) (take_field-ids f.number id uid gid)
        ∙ decode_fields-message fs fuel (if f.number == 1 then id else uid)
            (if f.number == 2 then id else gid) h.1
            (omega (arith, length-append (varint 4 f.value) (message fs))))

-- For every sequence of fields with numbers below 16 and u32 values, the decoding of its protobuf
-- encoding is the last uid and the last gid in it, where a missing field and the no-op id mean root.
pub decode_rootless_owner-message :
    (fs : List Field)
    → All IsSmall fs
    → decode_rootless_owner (message fs) ≡ some (last_id 1 0 fs, last_id 2 0 fs)
unfolding decode_rootless_owner
decode_rootless_owner-message fs h =
    decode_fields-message fs (length (message fs)) 0 0 h (omega arith)

abbrev pub IsId : ℕ → Type 0
IsId id = id < rootless_noop_id

abbrev Ids : ℕ × ℕ → Type 0
Ids owner = IsId owner.0 × IsId owner.1

stored_id-IsId : (id : ℕ) → leb id rootless_noop_id ≡ true → IsId (stored_id id)
unfolding stored_id
stored_id-IsId id h = ground arith

take_field-Ids :
    (number id : ℕ) (owner : ℕ × ℕ) → IsId id → Ids owner → Ids (take_field number id owner)
unfolding take_field
take_field-Ids number id owner h k = ground arith

-- What comes after a value was read.
after_value-Ids :
    (fuel number : ℕ) (owner : ℕ × ℕ) (r : Option (ℕ × List ℕ)) {owner' : ℕ × ℕ}
    → ((next : ℕ × ℕ) (rest : List ℕ)
        → Ids next
        → decode_fields fuel rest next ≡ some owner'
        → Ids owner')
    → Ids owner
    → elim r [
      | none ↦ none
      | some (value, rest) ↦
          let decoded = decode_fields fuel rest (take_field number (stored_id value) owner) in
          if leb value rootless_noop_id then decoded else none
    ]
      ≡ some owner'
    → Ids owner'
after_value-Ids fuel number owner none ih k h = cc
after_value-Ids fuel number owner (some (value, rest)) ih k h =
    elim (Bool-cases (leb value rootless_noop_id)) [
      | inl fits ↦
          ih (take_field number (stored_id value) owner) rest
            (take_field-Ids number (stored_id value) owner (stored_id-IsId value fits) k)
            (rw fits at h)
      | inr large ↦ absurd (none-ne-some _ (rw large at h))
    ]

decode_fields-Ids :
    (fuel : ℕ) (bytes : List ℕ) (owner : ℕ × ℕ) {owner' : ℕ × ℕ}
    → Ids owner
    → decode_fields fuel bytes owner ≡ some owner'
    → Ids owner'
unfolding decode_fields
decode_fields-Ids fuel [] owner k h = ground (arith, h)
decode_fields-Ids zero (key ∷ tail) owner k h = cc
decode_fields-Ids (suc fuel) (key ∷ tail) owner k h = elim (Bool-cases (bit_and key 0x7 == 0)) [
  | inl plain ↦
      after_value-Ids fuel (key / 8) owner (read_varint tail 0 0)
        (λ next rest. decode_fields-Ids fuel rest next) k (rw plain at h)
  | inr other ↦ absurd (none-ne-some _ (rw other at h))
]

-- No bytes decode to an id that is not a u32 or that is the no-op id, with which chown would leave the
-- owner as it is.
pub decode_rootless_owner-IsId :
    (bytes : List ℕ) (uid gid : ℕ)
    → decode_rootless_owner bytes ≡ some (uid, gid)
    → IsId uid × IsId gid
unfolding decode_rootless_owner
decode_rootless_owner-IsId bytes uid gid h =
    decode_fields-Ids (length bytes) bytes (0, 0) (omega arith) h

read_varint-shorter :
    (bytes : List ℕ) (value shift value' : ℕ) (rest : List ℕ)
    → read_varint bytes value shift ≡ some (value', rest)
    → length rest < length bytes
unfolding read_varint
read_varint-shorter [] value shift value' rest h = cc
read_varint-shorter (byte ∷ bytes) value shift value' rest h = ground (
  arith,
  read_varint-shorter bytes (bit_or value (bit_and byte 0x7f * 2 ^ shift)) (shift + 7) value' rest,
)

-- Fuel for every byte is enough: with more of it, the fields decode to the same.
pub decode_fields_enough :
    (n m : ℕ) (bytes : List ℕ) (owner : ℕ × ℕ)
    → length bytes ≤ n
    → length bytes ≤ m
    → decode_fields n bytes owner ≡ decode_fields m bytes owner
unfolding decode_fields
decode_fields_enough n m [] owner hn hm = refl
decode_fields_enough zero m (key ∷ tail) owner hn hm = absurd (omega arith)
decode_fields_enough (suc n) zero (key ∷ tail) owner hn hm = absurd (omega arith)
decode_fields_enough (suc n) (suc m) (key ∷ tail) owner hn hm =
    elim (Option-cases (read_varint tail 0 0)) [
      | inl e ↦ rw e refl
      | inr ((value, rest), e) ↦ rw (
        e,
        decode_fields_enough n m rest (take_field (key / 8) (stored_id value) owner)
            (omega (arith, read_varint-shorter tail 0 0 value rest e))
            (omega (arith, read_varint-shorter tail 0 0 value rest e)),
      )
    ]
