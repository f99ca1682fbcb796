-- ===== src/Egress.antt =====
-- crates/openshell-driver-lxd/src/egress.rs: the public IPv4 internet as CIDR blocks. A u64 or u32
-- is a plain number: every value of the code stays below 2^33.
mod Ranges
mod Blocks
pub mod Public
pub mod Rules
use openshell_driver_lxd.Common.{ℕ, zero, suc, ◌+◌, ◌-◌, ◌*◌, ◌/◌, ◌%◌, ◌^◌, ◌<>◌, String}
use openshell_driver_lxd.Common.{List, [], ◌∷◌, ◌++◌, Option, none, some, Bool, true, false}
use openshell_driver_lxd.Common.{ltb, leb, if◌then◌else◌, ◌==◌, nat_eq, ◌&&◌, ◌||◌}

abbrev pub u32_max : ℕ
u32_max = 4294967295

-- `Ipv4Addr::new(a, b, c, d)` as the number that `u32::from` gives.
abbrev pub ipv4 : ℕ → ℕ → ℕ → ℕ → ℕ
ipv4 a b c d = a * 16777216 + b * 65536 + c * 256 + d

-- An inclusive range of addresses, `(lo, hi)`.
abbrev pub Range : Type 0
Range = ℕ × ℕ

-- A block `address/prefix`.
pub record Cidr : Type 0 where
  pub address : ℕ
  pub prefix : ℕ

-- `NON_PUBLIC_IPV4`
abbrev pub non_public_ipv4 : List Cidr
non_public_ipv4 =
    record { address = ipv4 0 0 0 0; prefix = 8 }
    ∷ record { address = ipv4 10 0 0 0; prefix = 8 }
    ∷ record { address = ipv4 100 64 0 0; prefix = 10 }
    ∷ record { address = ipv4 127 0 0 0; prefix = 8 }
    ∷ record { address = ipv4 169 254 0 0; prefix = 16 }
    ∷ record { address = ipv4 172 16 0 0; prefix = 12 }
    ∷ record { address = ipv4 192 0 0 0; prefix = 24 }
    ∷ record { address = ipv4 192 0 2 0; prefix = 24 }
    ∷ record { address = ipv4 192 88 99 0; prefix = 24 }
    ∷ record { address = ipv4 192 168 0 0; prefix = 16 }
    ∷ record { address = ipv4 198 18 0 0; prefix = 15 }
    ∷ record { address = ipv4 198 51 100 0; prefix = 24 }
    ∷ record { address = ipv4 203 0 113 0; prefix = 24 }
    ∷ record { address = ipv4 224 0 0 0; prefix = 4 }
    ∷ record { address = ipv4 240 0 0 0; prefix = 4 }
    ∷ []

-- What is left of one range without `start ..= end`: the closure given to `flat_map`.
unfoldable pub remove_range : ℕ → ℕ → Range → List Range
remove_range start end (lo, hi) =
    if ltb end lo || ltb hi start
    then (lo, hi) ∷ []
    else (if ltb lo start then (lo, start - 1) ∷ [] else [])
      ++ (if ltb end hi then (end + 1, hi) ∷ [] else [])

unfoldable pub remove_from_all : ℕ → ℕ → List Range → List Range
remove_from_all start end [] = []
remove_from_all start end (r ∷ rs) = remove_range start end r ++ remove_from_all start end rs

-- The loop over the non-public blocks.
unfoldable pub public_ranges : List Cidr → List Range → List Range
public_ranges [] ranges = ranges
public_ranges (b ∷ bs) ranges =
    public_ranges bs (remove_from_all b.address (b.address + 2 ^ (32 - b.prefix) - 1) ranges)

-- `u64::trailing_zeros`, which is 64 at 0.
unfoldable pub trailing_zeros_below : ℕ → ℕ → ℕ
trailing_zeros_below zero n = 0
trailing_zeros_below (suc f) n =
    let rest = suc (trailing_zeros_below f (n / 2)) in if n % 2 == 0 then rest else 0

unfoldable pub trailing_zeros : ℕ → ℕ
trailing_zeros n = trailing_zeros_below 64 n

-- `while size > room { size >>= 1; }`
unfoldable pub shrink : ℕ → ℕ → ℕ → ℕ
shrink zero size room = size
shrink (suc f) size room =
    let rest = shrink f (size / 2) room in if ltb room size then rest else size

-- The size of the block that the inner loop emits at `start`.
unfoldable pub block_size : ℕ → ℕ → ℕ
block_size start end =
    let aligned = if start == 0 then 2 ^ 32 else 2 ^ trailing_zeros start in
    shrink 64 aligned (end - start + 1)

-- `u32::try_from(start).expect(…)`: `none` is the panic.
unfoldable pub u32_try_from : ℕ → Option ℕ
u32_try_from n = if leb n u32_max then some n else none

abbrev pub cons_block : Option ℕ → ℕ → Option (List Cidr) → Option (List Cidr)
cons_block none prefix rest = none
cons_block (some address) prefix none = none
cons_block (some address) prefix (some blocks) =
    some (record { address = address; prefix = prefix } ∷ blocks)

-- The loop over one range, on fuel. `none` is a panic, or fuel that ran out.
unfoldable pub range_blocks : ℕ → ℕ → ℕ → Option (List Cidr)
range_blocks zero start end = none
range_blocks (suc f) start end =
    let rest = range_blocks f (start + block_size start end) end in
    let blocks =
      cons_block (u32_try_from start) (32 - trailing_zeros (block_size start end)) rest in
    if leb start end then blocks else some []

abbrev pub append_blocks : Option (List Cidr) → Option (List Cidr) → Option (List Cidr)
append_blocks none rest = none
append_blocks (some bs) none = none
append_blocks (some bs) (some rest) = some (bs ++ rest)

-- Each round advances `start`, so a range has fewer rounds than addresses.
unfoldable pub ranges_blocks : List Range → Option (List Cidr)
ranges_blocks [] = some []
ranges_blocks ((start, end) ∷ rs) =
    append_blocks (range_blocks (end - start + 2) start end) (ranges_blocks rs)

-- `public_ipv4_cidrs`, before its blocks are printed.
unfoldable pub public_ipv4_cidrs : Option (List Cidr)
public_ipv4_cidrs = ranges_blocks (public_ranges non_public_ipv4 ((0, u32_max) ∷ []))
