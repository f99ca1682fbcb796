-- ===== src/Egress/Ranges.antt =====
-- crates/openshell-driver-lxd/src/egress.rs: removing ranges of addresses.
use openshell_driver_lxd.Common.{ℕ, zero, suc, ◌+◌, ◌-◌, ◌^◌, ◌≤◌, ◌<◌, ◌≡◌, refl, arith, All}
use openshell_driver_lxd.Common.{List, [], ◌∷◌, ◌++◌, Bool, false, not, ◌&&◌, ◌||◌, leb}
use openshell_driver_lxd.Egress.{Range, Cidr, remove_range, remove_from_all, public_ranges}

-- Whether an address lies in one of the ranges.
abbrev pub covers : ℕ → List Range → Bool
covers a [] = false
covers a ((lo, hi) ∷ rs) = (leb lo a && leb a hi) || covers a rs

-- Whether an address lies in the span of a block: from its address, 2^(32 - prefix) long.
abbrev pub spans : ℕ → List Cidr → Bool
spans a [] = false
spans a (b ∷ bs) = (leb b.address a && leb a (b.address + 2 ^ (32 - b.prefix) - 1)) || spans a bs

covers-append : (a : ℕ) (rs ts : List Range) → covers a (rs ++ ts) ≡ (covers a rs || covers a ts)
covers-append a [] ts = refl
covers-append a ((lo, hi) ∷ rs) ts = ground (arith, covers-append a rs ts)

covers-remove_range :
    (a start end : ℕ) (r : Range)
    → start ≤ end
    → covers a (remove_range start end r) ≡ (covers a (r ∷ []) && not (leb start a && leb a end))
unfolding remove_range
covers-remove_range a start end (lo, hi) h = ground arith

covers-remove_from_all :
    (a start end : ℕ) (rs : List Range)
    → start ≤ end
    → covers a (remove_from_all start end rs) ≡ (covers a rs && not (leb start a && leb a end))
unfolding remove_from_all
covers-remove_from_all a start end [] h = refl
covers-remove_from_all a start end (r ∷ rs) h = ground (
  arith,
  covers-append a (remove_range start end r) (remove_from_all start end rs),
  covers-remove_range a start end r h,
  covers-remove_from_all a start end rs h,
)

two_pow_pos : (k : ℕ) → 0 < 2 ^ k
two_pow_pos zero = omega arith
two_pow_pos (suc k) = grind (arith, two_pow_pos k)

pub covers-public_ranges :
    (a : ℕ) (bs : List Cidr) (rs : List Range)
    → covers a (public_ranges bs rs) ≡ (covers a rs && not (spans a bs))
unfolding public_ranges
covers-public_ranges a [] rs = ground arith
covers-public_ranges a (b ∷ bs) rs = ground (
  arith,
  covers-public_ranges a bs (remove_from_all b.address (b.address + 2 ^ (32 - b.prefix) - 1) rs),
  covers-remove_from_all a b.address (b.address + 2 ^ (32 - b.prefix) - 1) rs,
  two_pow_pos (32 - b.prefix),
)

-- The ends of the ranges that are left stay below the bound of those given.
abbrev pub EndsBy : ℕ → List Range → Type 0
EndsBy n = All (λ r. r.1 ≤ n)

EndsBy-append : (n : ℕ) (rs ts : List Range) → EndsBy n rs → EndsBy n ts → EndsBy n (rs ++ ts)
EndsBy-append n [] ts h k = k
EndsBy-append n (r ∷ rs) ts h k = (h.0, EndsBy-append n rs ts h.1 k)

remove_range-EndsBy : (n start end : ℕ) (r : Range) → r.1 ≤ n → EndsBy n (remove_range start end r)
unfolding remove_range
remove_range-EndsBy n start end (lo, hi) h = ground arith

remove_from_all-EndsBy :
    (n start end : ℕ) (rs : List Range) → EndsBy n rs → EndsBy n (remove_from_all start end rs)
unfolding remove_from_all
remove_from_all-EndsBy n start end [] h = h
remove_from_all-EndsBy n start end (r ∷ rs) h =
    EndsBy-append n (remove_range start end r) (remove_from_all start end rs)
      (remove_range-EndsBy n start end r h.0) (remove_from_all-EndsBy n start end rs h.1)

pub public_ranges-EndsBy :
    (n : ℕ) (bs : List Cidr) (rs : List Range) → EndsBy n rs → EndsBy n (public_ranges bs rs)
unfolding public_ranges
public_ranges-EndsBy n [] rs h = h
public_ranges-EndsBy n (b ∷ bs) rs h =
    public_ranges-EndsBy n bs _ (remove_from_all-EndsBy n b.address _ rs h)
