-- ===== src/Egress/Public.antt =====
-- crates/openshell-driver-lxd/src/egress.rs: `public_ipv4_cidrs` against the non-public blocks.
use openshell_driver_lxd.Common.{ℕ, ◌≤◌, ◌≡◌, refl, arith, List, [], ◌∷◌, some, Bool, not, any, All}
use openshell_driver_lxd.Egress.{Cidr, u32_max, non_public_ipv4, public_ranges, public_ipv4_cidrs}
use openshell_driver_lxd.Egress.Ranges.{spans, covers-public_ranges, public_ranges-EndsBy}
use openshell_driver_lxd.Egress.Blocks.{matches, IsAligned, matches-aligned, ranges_blocks-Covers}

-- Whether an address is in one of the non-public blocks.
pub is_non_public : ℕ → Bool
is_non_public a = any (matches a) non_public_ipv4

non_public-IsAligned : All IsAligned non_public_ipv4
non_public-IsAligned = omega arith

spans-aligned : (a : ℕ) (bs : List Cidr) → All IsAligned bs → spans a bs ≡ any (matches a) bs
spans-aligned a [] h = refl
spans-aligned a (b ∷ bs) h = ground (arith, matches-aligned a b h.0, spans-aligned a bs h.1)

-- The allowed blocks: the computation returns, each block is an aligned CIDR, and an IPv4 address
-- matches one of them exactly when it matches none of the non-public blocks.
pub public_ipv4_cidrs-complement :
    (blocks : List Cidr) × (public_ipv4_cidrs ≡ some blocks)
    × All IsAligned blocks
    × ((a : ℕ) → a ≤ u32_max → any (matches a) blocks ≡ not (is_non_public a))
unfolding public_ipv4_cidrs is_non_public
public_ipv4_cidrs-complement =
    let ranges = public_ranges non_public_ipv4 ((0, u32_max) ∷ []) in
    let found =
      ranges_blocks-Covers ranges
        (public_ranges-EndsBy u32_max non_public_ipv4 ((0, u32_max) ∷ []) (omega arith, tt)) in
    (
      found.blocks,
      found.returned,
      found.aligned,
      λ a h. ground (
        arith,
        found.matched a,
        covers-public_ranges a non_public_ipv4 ((0, u32_max) ∷ []),
        spans-aligned a non_public_ipv4 non_public-IsAligned,
      ),
    )
