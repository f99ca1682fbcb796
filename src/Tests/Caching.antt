-- ===== src/Tests/Caching.antt =====
-- The theorems on the image cache, at two calls for the same reference.
use openshell_driver_lxd.Common.{
  ◌≡◌, refl, ◌≤◌, String, [], ◌∷◌, Bool, true, nat_eq, string_eq, contains, arith,
}
use openshell_driver_lxd.Lxd.Types.{ok}
use openshell_driver_lxd.Driver.Checks.{validate_reference}
use openshell_driver_lxd.Image.Cache.{
  checking, System, goes, enter, on_digest, on_exists, on_import, alias_of, any_below, holds,
  is_held, Step, starts, resolves, locks, checks, imports, Reach, here, next, initial,
}
use openshell_driver_lxd.Image.Cache.Once.{times, resolve_alias-imports_once}
use openshell_driver_lxd.Image.Cache.Finish.{work_below, own, resolve_alias-goes_on}

abbrev quoted : String → String
quoted s = s

abbrev matches : String → Bool
matches s = true

abbrev two_calls : System
two_calls = initial 2 (λ i. "ubuntu") []

abbrev Then : System → System → Type 0
Then = Step quoted matches "oci-"

-- The first call goes through; the second one has not begun.
abbrev s1 : System
s1 = goes two_calls 0 (enter quoted matches "oci-" "ubuntu")

abbrev s2 : System
s2 = goes s1 0 (on_digest quoted matches "oci-" "ubuntu" (ok "d"))

abbrev s3 : System
s3 = goes s2 0 (checking "ubuntu" "d")

abbrev alias : String
alias = alias_of quoted matches "oci-" "d"

abbrev s4 : System
s4 = goes s3 0 (on_exists quoted matches "oci-" "ubuntu" "d" (ok (contains s3.images alias)))

abbrev s5 : System
s5 =
    goes (record s4 { images = alias ∷ s4.images; imports = alias ∷ s4.imports }) 0
      (on_import quoted matches "oci-" "ubuntu" "d" (ok tt))

run : Reach quoted matches "oci-" two_calls s5
unfolding initial goes enter validate_reference on_digest on_exists is_held any_below holds
run =
    next
      (next
        (next
          (next (next here (starts 0 (omega arith) refl)) (resolves 0 (ok "d") (omega arith) refl))
          (locks 0 (omega arith) refl refl))
        (checks 0 (omega arith) refl))
      (imports 0 (omega arith) refl)

resolve_alias-imports_once_example : times alias s5.imports ≤ 1
resolve_alias-imports_once_example =
    resolve_alias-imports_once quoted matches "oci-" 2 (λ i. "ubuntu") [] s5 alias run

resolve_alias-goes_on_example :
    (t : System) × (st : Then two_calls t) × (own quoted matches "oci-" st ≡ 1)
unfolding work_below initial
resolve_alias-goes_on_example = resolve_alias-goes_on quoted matches "oci-" two_calls (omega arith)
