-- ===== src/Lxd/Trust/Fingerprint.antt =====
-- crates/lxd-client/src/client.rs: what `parse_fingerprint` makes of a fingerprint in hexadecimal.
use openshell_driver_lxd.Common.{
  ◌≡◌, refl, ap, ◌∙◌, arith, ℕ, suc, ◌+◌, ◌*◌, List, [], ◌∷◌, some, true, false, not, ◌==◌, nat_eq,
  ltb, length, map, keep,
}
use openshell_driver_lxd.Lxd.Types.{ok}
use openshell_driver_lxd.Lxd.Trust.{
  returns, to_ascii_lowercase, to_digit, from_str_radix, is_utf8, parse_chunks, parse_fingerprint,
}

-- `Spells s bytes`: `s` writes each byte as two hexadecimal digits of either case, with any number of
-- colons before, between and after the bytes.
pub data Spells : List ℕ → List ℕ → Type 0 where
  nothing : Spells [] []
  colon : {s bytes : List ℕ} → Spells s bytes → Spells (b':' ∷ s) bytes
  byte :
      {s bytes : List ℕ} (a b n m : ℕ)
      → to_digit a ≡ some n
      → to_digit b ≡ some m
      → Spells s bytes
      → Spells (a ∷ b ∷ s) ((n * 16 + m) ∷ bytes)

-- The text after the removal of the colons.
abbrev plain : List ℕ → List ℕ
plain s = keep (λ b. not (b == b':')) (map to_ascii_lowercase s)

-- A digit in lower case: it has the same value, and is ASCII, no colon and no sign.
record Lowered (a n : ℕ) : Type 0 where
  same : to_digit (to_ascii_lowercase a) ≡ some n
  no_colon : (to_ascii_lowercase a == b':') ≡ false
  no_sign : (to_ascii_lowercase a == b'+') ≡ false
  ascii : ltb (to_ascii_lowercase a) 0x80 ≡ true

lowered : (a n : ℕ) → to_digit a ≡ some n → Lowered a n
unfolding to_digit to_ascii_lowercase
lowered a n h = record {
  same = ground (arith, h);
  no_colon = ground (arith, h);
  no_sign = ground (arith, h);
  ascii = ground (arith, h);
}

module _ (a b n m : ℕ) (la : Lowered a n) (lb : Lowered b m) where
  pair-utf8 : is_utf8 (to_ascii_lowercase a) (to_ascii_lowercase b) ≡ true
  unfolding is_utf8
  pair-utf8 = rw (la.ascii, lb.ascii) refl

  pair-radix : from_str_radix (to_ascii_lowercase a) (to_ascii_lowercase b) ≡ ok (n * 16 + m)
  unfolding from_str_radix
  pair-radix = rw (la.no_sign, la.same, lb.same) refl

  pair-chunks :
      (s bytes : List ℕ)
      → parse_chunks s ≡ returns bytes
      → parse_chunks (to_ascii_lowercase a ∷ to_ascii_lowercase b ∷ s)
        ≡ returns ((n * 16 + m) ∷ bytes)
  unfolding parse_chunks
  pair-chunks s bytes h = rw (pair-utf8, pair-radix, h) refl

  pair-plain :
      (s : List ℕ) → plain (a ∷ b ∷ s) ≡ to_ascii_lowercase a ∷ to_ascii_lowercase b ∷ plain s
  pair-plain s = rw (la.no_colon, lb.no_colon) refl

plain-Spells :
    {s bytes : List ℕ}
    → Spells s bytes
    → (parse_chunks (plain s) ≡ returns bytes) × (length (plain s) ≡ 2 * length bytes)
unfolding parse_chunks to_ascii_lowercase
plain-Spells nothing = (refl, refl)
plain-Spells (colon spelled) = plain-Spells spelled
plain-Spells (byte {s} {bytes} a b n m ha hb spelled) =
    let (chunks, len) = plain-Spells spelled in
    let la = lowered a n ha in
    let lb = lowered b m hb in
    (
      ap parse_chunks (pair-plain a b n m la lb s)
          ∙ pair-chunks a b n m la lb (plain s) bytes chunks,
      ap length (pair-plain a b n m la lb s) ∙ (ap (λ l. suc (suc l)) len ∙ omega arith),
    )

-- A fingerprint of 32 bytes, written in hexadecimal digits of either case and with any number
-- of colons before, between and after the bytes, is read as these bytes.
pub parse_fingerprint-Spells :
    {s bytes : List ℕ} → Spells s bytes → length bytes ≡ 32 → parse_fingerprint s ≡ returns bytes
unfolding parse_fingerprint
parse_fingerprint-Spells {s} {bytes} spelled h =
    let (chunks, len) = plain-Spells spelled in
    let len : length (plain s) ≡ 64 = len ∙ ap (λ l. 2 * l) h in rw len chunks
