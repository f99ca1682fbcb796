-- ===== src/Image/Owner/Encoding.antt =====
-- The protobuf encoding of a message of varint fields, as its documentation describes it: each field is
-- a key, its number times eight, and the value in groups of seven bits, the lowest first.
use openshell_driver_lxd.Common.{
  ℕ, zero, suc, ◌+◌, ◌*◌, ◌/◌, ◌%◌, ◌<◌, List, [], ◌∷◌, ◌++◌, if◌then◌else◌, ltb, ◌==◌, nat_eq,
}

pub record Field : Type 0 where
  pub number : ℕ
  pub value : ℕ

-- A field whose key is one byte and whose value is a u32.
abbrev pub IsSmall : Field → Type 0
IsSmall f = (f.number < 16) × (f.value < 0x1_0000_0000)

-- A number below 128 ^ (k + 1) in groups of seven bits.
unfoldable pub varint : ℕ → ℕ → List ℕ
varint zero v = v ∷ []
varint (suc k) v =
    let rest = varint k (v / 128) in if ltb v 128 then v ∷ [] else (v % 128 + 128) ∷ rest

abbrev pub field : Field → List ℕ
field f = (f.number * 8) ∷ varint 4 f.value

unfoldable pub message : List Field → List ℕ
message [] = []
message (f ∷ fs) = field f ++ message fs

-- The id that a value stands for: the no-op id, the greatest u32, for root.
abbrev pub owner_of : ℕ → ℕ
owner_of v = if v == 0xFFFF_FFFF then 0 else v

-- The id in the last field with a number, or else `id`.
unfoldable pub last_id : ℕ → ℕ → List Field → ℕ
last_id number id [] = id
last_id number id (f ∷ fs) = last_id number (if f.number == number then owner_of f.value else id) fs
