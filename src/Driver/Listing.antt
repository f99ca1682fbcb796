-- ===== src/Driver/Listing.antt =====
-- crates/openshell-driver-lxd/src/driver.rs: the two passes of `list_sandboxes`.
use openshell_driver_lxd.Common.{
  ◌≡◌, refl, ℕ, zero, suc, String, List, [], ◌∷◌, Option, none, some, string_eq, get_elem?, arith,
  length, ◌+◌, ◌≤◌, ◌∙◌, keep,
}
use openshell_driver_lxd.Lxd.{Lxd}
use openshell_driver_lxd.Lxd.{get_instance, list_instances}
use openshell_driver_lxd.Lxd.Types.{LxdError, Result, ok, err, Instance}
use openshell_driver_lxd.Lxd.Actions.{Action, World, pure, try_send, ◌>>=◌}
use openshell_driver_lxd.Errors.{from_lxd, DriverError}
use openshell_driver_lxd.Config.{Config}
use openshell_driver_lxd.Mapping.{Observation}
use openshell_driver_lxd.Driver.Reads.{reread, resettle, settle_list, list_sandboxes, collect}
use openshell_driver_lxd.Common.{subst, sym, All, if-both, ◌<◌}
use openshell_driver_lxd.Lxd.Actions.{continue, send, sleep}
use openshell_driver_lxd.Driver.{is_managed}
use openshell_driver_lxd.Driver.Reads.{set_at}
use openshell_driver_lxd.Mapping.{stopped_by_the_runtime, instance_to_driver_sandbox}

-- A position in range.
abbrev In : ℕ → ℕ → ℕ → Type 0
In n len i = (n ≤ i) × (i < n + len)

-- One more sandbox in front, or one more behind: positions stay in range.
widen : (n len : ℕ) (is : List ℕ) → All (In (n + 1) len) is → All (In n (suc len)) is
widen n len [] h = tt
widen n len (i ∷ is) h = (((omega arith), (omega arith)), widen n len is h.1)

module _ (debug : String → String) where
  collect-length :
      (n : ℕ) (is : List Instance) → length (collect debug n is).0 ≡ length (keep is_managed is)
  unfolding collect
  collect-length n [] = refl
  collect-length n (i ∷ is) = ground (arith, collect-length n is, collect-length (n + 1) is)

  collect-In :
      (n : ℕ) (is : List Instance)
      → All (In n (length (collect debug n is).0)) (collect debug n is).1
  unfolding collect
  collect-In n [] = tt
  collect-In n (i ∷ is) =
      let (sandboxes, unsettled) = collect debug (n + 1) is in
      let behind = widen n (length sandboxes) unsettled (collect-In (n + 1) is) in
      if-both (λ (x : List Observation × List ℕ). All (In n (length x.0)) x.1) (is_managed i) _ _
        (if-both (All (In n (suc (length sandboxes)))) (stopped_by_the_runtime i) _ _
          (((omega arith), (omega arith)), behind) behind)
        (collect-In n is)

length-set_at :
    (xs : List Observation) (i : ℕ) (v : Observation) → length (set_at xs i v) ≡ length xs
unfolding set_at
length-set_at [] i v = refl
length-set_at (x ∷ xs) zero v = omega arith
length-set_at (x ∷ xs) (suc i) v = omega (arith, length-set_at xs i v)

length-reread :
    (debug : String → String) (xs : List Observation) (i : ℕ) (r : Result LxdError Instance)
    → length (reread debug xs i r) ≡ length xs
length-reread debug xs i (ok now) = length-set_at xs i (instance_to_driver_sandbox debug now)
length-reread debug xs i (err e) = refl

get_elem?-below :
    {A : Type 0} (xs : List A) (i : ℕ) → i < length xs → (x : A) × (get_elem? xs i ≡ some x)
get_elem?-below [] i h = ground arith
get_elem?-below (x ∷ xs) zero h = (x, refl)
get_elem?-below (x ∷ xs) (suc i) h = get_elem?-below xs i (omega arith)

module _ (debug : String → String) (c : Config) (L : Lxd) where
  -- A list of `n` observations, and no panic.
  abbrev pub Lists : ℕ → Result DriverError (Option (List Observation)) → Type 0
  Lists n r = (out : List Observation) × (r ≡ ok (some out)) × (length out ≡ n)

  -- The step of `resettle` at a position, with what stands there.
  abbrev reread_at :
      ℕ → List ℕ → List Observation → Option Observation → Action L (Option (List Observation))
  reread_at i is xs o = elim o [
    | none ↦ pure none
    | some x ↦ try_send (get_instance x.name) >>= λ r. resettle debug c L is (reread debug xs i r)
  ]

  resettle-Lists :
      (n : ℕ) (is : List ℕ) (xs : List Observation) (w : World L)
      → All (λ i. i < n) is
      → length xs ≡ n
      → Lists n (resettle debug c L is xs w).0
  unfolding resettle try_send pure ◌>>=◌
  resettle-Lists n [] xs w h k = (xs, refl, k)
  resettle-Lists n (i ∷ is) xs w h k =
      let (x, found) = get_elem?-below xs i (omega (arith, h.0, k)) in
      subst (λ o. Lists n (reread_at i is xs o w).0) (sym found)
        (resettle-Lists n is _ _ h.1 (length-reread debug xs i _ ∙ k))

  settle_list-Lists :
      (n : ℕ) (xs : List Observation) (is : List ℕ) (w : World L)
      → All (λ i. i < n) is
      → length xs ≡ n
      → Lists n (settle_list debug c L (xs, is) w).0
  unfolding sleep pure ◌>>=◌
  settle_list-Lists n xs [] w h k = (xs, refl, k)
  settle_list-Lists n xs (i ∷ is) w h k = resettle-Lists n (i ∷ is) xs _ h k

below : (n : ℕ) (is : List ℕ) → All (In 0 n) is → All (λ i. i < n) is
below n [] h = tt
below n (i ∷ is) h = (omega (arith, h.0.1), below n is h.1)

-- Where LXD answers the listing with instances, whatever it answers to what follows:
-- `list_sandboxes` returns one sandbox for each managed instance, and never reads a position out of
-- range.
pub list_sandboxes-total :
    (debug : String → String) (c : Config) (L : Lxd) (w : World L) (is : List Instance)
    (s : L.State)
    → L.answer list_instances w.state ≡ (ok is, s)
    → Lists debug c L (length (keep is_managed is)) (list_sandboxes debug c L w).0
unfolding list_sandboxes send ◌>>=◌
list_sandboxes-total debug c L w is s found =
    let n = length (keep is_managed is) in
    let (xs, positions) = collect debug 0 is in
    subst
      (λ x.
        Lists debug c L n
          (continue (from_lxd x.0) (λ js. settle_list debug c L (collect debug 0 js))
            (record w { state = x.1; calls = list_instances ∷ w.calls })).0)
      (sym found)
      (settle_list-Lists debug c L n xs positions _
        (below n positions (
          subst (λ len. All (In 0 len) positions) (collect-length debug 0 is)
            (collect-In debug 0 is)))
        (collect-length debug 0 is))
