-- ===== src/Image/Owner.antt =====
-- crates/openshell-driver-lxd/src/image.rs, `decode_rootless_owner`: the owner of a file, from the
-- extended attribute in which umoci records it. A byte is a number below 256. The varint's 64 bits
-- cannot overflow: at most 42 of them are set.
pub mod Encoding
pub mod RoundTrip
use Prim.Native.Nat.{bit_and, bit_or}
use openshell_driver_lxd.Common.{
  ℕ, zero, suc, ◌+◌, ◌*◌, ◌/◌, ◌^◌, List, [], ◌∷◌, Option, none, some, not, if◌then◌else◌, ◌==◌,
  nat_eq, ltb, leb, length,
}

-- `ROOTLESS_NOOP_ID`, which is `u32::MAX`
abbrev pub rootless_noop_id : ℕ
rootless_noop_id = 0xffff_ffff

-- The inner loop: the value of a varint, and the bytes behind it.
unfoldable pub read_varint : List ℕ → (value shift : ℕ) → Option (ℕ × List ℕ)
read_varint [] value shift = none
read_varint (byte ∷ rest) value shift =
    let value' = bit_or value (bit_and byte 0x7f * 2 ^ shift) in
    let more = read_varint rest value' (shift + 7) in
    if bit_and byte 0x80 == 0
    then some (value', rest)
    else if ltb 35 (shift + 7)
    then none
    else more

-- The no-op id means root.
unfoldable pub stored_id : ℕ → ℕ
stored_id id = if id == rootless_noop_id then 0 else id

-- The match on the field's number, for `(uid, gid)`.
unfoldable pub take_field : ℕ → ℕ → ℕ × ℕ → ℕ × ℕ
take_field number id (uid, gid) =
    if number == 1 then (id, gid) else if number == 2 then (uid, id) else (uid, gid)

-- The outer loop. Every round takes two bytes at least.
unfoldable pub decode_fields : ℕ → List ℕ → ℕ × ℕ → Option (ℕ × ℕ)
decode_fields fuel [] owner = some owner
decode_fields zero (key ∷ tail) owner = none
decode_fields (suc fuel) (key ∷ tail) owner =
    if not (bit_and key 0x7 == 0) then none else elim (read_varint tail 0 0) [
      | none ↦ none
      | some (value, rest) ↦
          let decoded = decode_fields fuel rest (take_field (key / 8) (stored_id value) owner) in
          if leb value rootless_noop_id then decoded else none
    ]

unfoldable pub decode_rootless_owner : List ℕ → Option (ℕ × ℕ)
decode_rootless_owner bytes = decode_fields (length bytes) bytes (0, 0)
