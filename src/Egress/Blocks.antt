-- ===== src/Egress/Blocks.antt =====
-- crates/openshell-driver-lxd/src/egress.rs: the loops that cut a range into blocks.
use native.Mathlib.Nat.{
  two-pow-succ, pow-le-pow_right, mul-div_left, mul-mod_left, mod-add-div', div-mul-le_self,
  lt-div-mul-add,
}
use openshell_driver_lxd.Common.{
  ℕ, zero, suc, ◌+◌, ◌-◌, ◌*◌, ◌/◌, ◌%◌, ◌^◌, ◌≤◌, ◌<◌, ◌≡◌, ◌⊎◌, refl, ap, arith,
}
use openshell_driver_lxd.Common.{List, [], ◌∷◌, ◌++◌, Option, some, Bool, true, ◌&&◌, ◌||◌}
use openshell_driver_lxd.Common.{
  leb, leb→le, ltb, ◌==◌, nat_eq, Bool-cases, inl, inr, All, All-append, any,
}
use openshell_driver_lxd.Egress.{
  Range, Cidr, u32_max, trailing_zeros_below, trailing_zeros, shrink, block_size,
}
use openshell_driver_lxd.Egress.{u32_try_from, cons_block, range_blocks, ranges_blocks}
use openshell_driver_lxd.Egress.Ranges.{covers, EndsBy}

-- Whether an address matches a block: they agree on all but the last 32 - prefix bits.
abbrev pub matches : ℕ → Cidr → Bool
matches a c = a / 2 ^ (32 - c.prefix) == c.address / 2 ^ (32 - c.prefix)

pub two_pow_pos : (k : ℕ) → 0 < 2 ^ k
two_pow_pos zero = omega arith
two_pow_pos (suc k) = grind (arith, two_pow_pos k)

half-two_pow : (k : ℕ) → 2 ^ suc k / 2 ≡ 2 ^ k
half-two_pow k = omega (arith, two-pow-succ k)

trailing_zeros_below-divides : (f n : ℕ) → (m : ℕ) × (n ≡ m * 2 ^ trailing_zeros_below f n)
unfolding trailing_zeros_below
trailing_zeros_below-divides zero n = (n, omega arith)
trailing_zeros_below-divides (suc f) n = elim (Bool-cases (n % 2 == 0)) [
  | inl even ↦
      let (m, e) = trailing_zeros_below-divides f (n / 2) in
      (m, rw even (grind (arith, two-pow-succ (trailing_zeros_below f (n / 2)))))
  | inr odd ↦ (n, rw odd (omega arith))
]

trailing_zeros_below-two_pow : (f k : ℕ) → k < f → trailing_zeros_below f (2 ^ k) ≡ k
unfolding trailing_zeros_below
trailing_zeros_below-two_pow zero k h = absurd (omega arith)
trailing_zeros_below-two_pow (suc f) zero h = refl
trailing_zeros_below-two_pow (suc f) (suc k) h =
    ground (arith, two-pow-succ k, half-two_pow k, trailing_zeros_below-two_pow f k)

trailing_zeros-two_pow : (k : ℕ) → k ≤ 32 → trailing_zeros (2 ^ k) ≡ k
unfolding trailing_zeros
trailing_zeros-two_pow k h = trailing_zeros_below-two_pow 64 k (omega arith)

-- Halving a power of two down to `room` leaves a power of two that divides it and fits.
shrink_lem :
    (f j room : ℕ)
    → j ≤ f
    → 0 < room
    → (k q : ℕ) × (shrink f (2 ^ j) room ≡ 2 ^ k) × (k ≤ j) × (2 ^ k ≤ room) × (2 ^ j ≡ q * 2 ^ k)
unfolding shrink
shrink_lem zero zero room h p = (0, 1, refl, omega arith, omega arith, refl)
shrink_lem zero (suc j) room h p = absurd (omega arith)
shrink_lem (suc f) zero room h p = (0, 1, ground arith, omega arith, omega arith, refl)
shrink_lem (suc f) (suc j) room h p = elim (Bool-cases (ltb room (2 ^ suc j))) [
  | inl large ↦
      let (k, q, e, below, fits, divides) = shrink_lem f j room (omega arith) p in
      (
        k,
        2 * q,
        rw large (rw half-two_pow e),
        omega arith,
        fits,
        omega (arith, two-pow-succ j, ap (λ (t : ℕ). 2 * t) divides),
      )
  | inr small ↦ (suc j, 1, rw small, omega arith, ground arith, omega arith)
]

-- A block of 2^k addresses at a multiple of 2^k, which does not pass `end`.
pub record IsBlock (start end k : ℕ) : Type 0 where
  pub size : block_size start end ≡ 2 ^ k
  pub bits : k ≤ 32
  pub fits : 2 ^ k ≤ end - start + 1
  pub multiple : ℕ
  pub aligned : start ≡ multiple * 2 ^ k

exponent_bound : (m t : ℕ) → 0 < m * 2 ^ t → m * 2 ^ t ≤ u32_max → t ≤ 32
exponent_bound m t p h = elim (Bool-cases (leb t 32)) [
  | inl small ↦ ground arith
  | inr large ↦
      absurd (grind (arith, pow-le-pow_right {n = 2} (omega arith) {i = 33} {j = t} (ground arith)))
]

trailing_zeros-divides : (n : ℕ) → (m : ℕ) × (n ≡ m * 2 ^ trailing_zeros n)
unfolding trailing_zeros
trailing_zeros-divides n = trailing_zeros_below-divides 64 n

size-IsBlock : (start end : ℕ) → start ≤ end → end ≤ u32_max → (k : ℕ) × IsBlock start end k
unfolding block_size
size-IsBlock start end h b = elim (Bool-cases (start == 0)) [
  | inl first ↦
      let (k, q, e, below, fits, divides) =
        shrink_lem 64 32 (end - start + 1) (omega arith) (omega arith) in
      (
        k,
        record {
          size = rw first e;
          bits = below;
          fits = fits;
          multiple = 0;
          aligned = ground arith;
        },
      )
  | inr later ↦
      let (m, e) = trailing_zeros-divides start in
      let small : trailing_zeros start ≤ 32 =
        exponent_bound m (trailing_zeros start) (ground arith) (omega arith) in
      let (k, q, e', below, fits, divides) =
        shrink_lem 64 (trailing_zeros start) (end - start + 1) (omega arith) (omega arith) in
      (
        k,
        record {
          size = rw later e';
          bits = omega arith;
          fits = fits;
          multiple = m * q;
          aligned = omega (arith, ap (λ (x : ℕ). m * x) divides);
        },
      )
]

prefix_bits : (k : ℕ) → k ≤ 32 → 32 - (32 - k) ≡ k
prefix_bits k h = omega arith

trichotomy : (a b : ℕ) → (a < b) ⊎ ((a ≡ b) ⊎ (b < a))
trichotomy a b = grind arith

quotient_in_span :
    (x m p a : ℕ) → x * p ≤ a → a < x * p + p → (x == m) ≡ (leb (m * p) a && leb a (m * p + p - 1))
quotient_in_span x m p a low high = elim (trichotomy x m) [
  | inl below ↦ ground (arith, mul_mono below)
  | inr (inl same) ↦ ground (arith, ap (λ (t : ℕ). t * p) same)
  | inr (inr above) ↦ ground (arith, mul_mono above)
]
  where
    mul_mono : {u v : ℕ} → u < v → u * p + p ≤ v * p
    mul_mono h = grind arith

-- Matching a block of 2^k aligned addresses is lying in its span.
matches-span :
    (a start k m : ℕ)
    → k ≤ 32
    → start ≡ m * 2 ^ k
    → matches a (record { address = start; prefix = 32 - k })
      ≡ (leb start a && leb a (start + 2 ^ k - 1))
matches-span a start k m h e =
    rw (prefix_bits k h, e, mul-div_left m (two_pow_pos k))
      (quotient_in_span (a / 2 ^ k) m (2 ^ k) a (div-mul-le_self a (2 ^ k))
        (lt-div-mul-add (two_pow_pos k)))

-- The emitted block is an aligned address with a prefix of at most 32 bits.
abbrev pub IsAligned : Cidr → Type 0
IsAligned c = (c.prefix ≤ 32) × (c.address ≤ u32_max) × (c.address % 2 ^ (32 - c.prefix) ≡ 0)

pub matches-aligned :
    (a : ℕ) (c : Cidr)
    → IsAligned c
    → matches a c ≡ (leb c.address a && leb a (c.address + 2 ^ (32 - c.prefix) - 1))
matches-aligned a c (bits, small, aligned) =
    let k : ℕ = 32 - c.prefix in
    let e : 32 - k ≡ c.prefix = omega arith in
    let same =
      matches-span a c.address k (c.address / 2 ^ k) (omega arith)
        (omega (arith, aligned, mod-add-div' c.address (2 ^ k))) in
    rw e at same

-- What the loop over a range that ends by `u32_max` returns.
pub record Cuts (start end : ℕ) (result : Option (List Cidr)) : Type 0 where
  pub blocks : List Cidr
  pub returned : result ≡ some blocks
  pub matched : (a : ℕ) → any (matches a) blocks ≡ (leb start a && leb a end)
  pub aligned : All IsAligned blocks

cut_block :
    (start end k : ℕ) (rest : Option (List Cidr))
    → start ≤ end
    → end ≤ u32_max
    → IsBlock start end k
    → Cuts (start + 2 ^ k) end rest
    → Cuts start end (cons_block (u32_try_from start) (32 - k) rest)
unfolding u32_try_from
cut_block start end k rest h b block more = record {
  blocks = record { address = start; prefix = 32 - k } ∷ more.blocks;
  returned = rw (more.returned, in_u32) refl;
  matched = λ a. ground (
    arith,
    matches-span a start k block.multiple block.bits block.aligned,
    more.matched a,
    block.fits,
    two_pow_pos k,
  );
  aligned = (
    (
      omega arith,
      omega arith,
      rw (prefix_bits k block.bits, block.aligned) (mul-mod_left block.multiple (2 ^ k)),
    ),
    more.aligned,
  );
}
  where
    in_u32 : leb start u32_max ≡ true
    in_u32 = ground arith

-- With more fuel than addresses left the loop over a range returns, and cuts it.
pub range_blocks-Cuts :
    (f start end : ℕ)
    → end ≤ u32_max
    → end + 1 < f + start
    → 0 < f
    → Cuts start end (range_blocks f start end)
unfolding range_blocks
range_blocks-Cuts zero start end b h p = absurd (omega arith)
range_blocks-Cuts (suc f) start end b h p = elim (Bool-cases (leb start end)) [
  | inl inside ↦
      let le : start ≤ end = leb→le start end inside in
      let (k, block) = size-IsBlock start end le b in
      rw (inside, block.size, trailing_zeros-two_pow k block.bits)
        (cut_block start end k _ le b block
          (range_blocks-Cuts f (start + 2 ^ k) end b (omega (arith, two_pow_pos k)) (omega arith)))
  | inr outside ↦ record {
    blocks = [];
    returned = rw outside;
    matched = λ a. ground arith;
    aligned = tt;
  }
]

any-append :
    (a : ℕ) (bs cs : List Cidr)
    → any (matches a) (bs ++ cs) ≡ (any (matches a) bs || any (matches a) cs)
any-append a [] cs = refl
any-append a (b ∷ bs) cs = ground (arith, any-append a bs cs)

-- What the loop over all ranges returns.
pub record Covers (ranges : List Range) (result : Option (List Cidr)) : Type 0 where
  pub blocks : List Cidr
  pub returned : result ≡ some blocks
  pub matched : (a : ℕ) → any (matches a) blocks ≡ covers a ranges
  pub aligned : All IsAligned blocks

pub ranges_blocks-Covers :
    (ranges : List Range) → EndsBy u32_max ranges → Covers ranges (ranges_blocks ranges)
unfolding ranges_blocks
ranges_blocks-Covers [] h = record {
  blocks = [];
  returned = refl;
  matched = λ a. refl;
  aligned = tt;
}
ranges_blocks-Covers ((start, end) ∷ rs) h =
    let first = range_blocks-Cuts (end - start + 2) start end h.0 (omega arith) (omega arith) in
    let rest = ranges_blocks-Covers rs h.1 in
    record {
      blocks = first.blocks ++ rest.blocks;
      returned = rw (first.returned, rest.returned);
      matched = λ a.
          ground (arith, any-append a first.blocks rest.blocks, first.matched a, rest.matched a);
      aligned = All-append IsAligned first.blocks rest.blocks first.aligned rest.aligned;
    }
