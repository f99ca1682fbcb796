-- ===== src/Egress/Rules/Gateway.antt =====
-- crates/openshell-driver-lxd/src/egress.rs, `rules`: what the rules for the gateway allow.
use openshell_driver_lxd.Common.{
  ℕ, String, List, [], ◌∷◌, map, Bool, true, ◌&&◌, ◌||◌, ◌==◌, nat_eq, string_eq, leb, any,
  contains, keep, Eq, ◌≡◌, refl, ap, ◌∙◌, arith,
}
use openshell_driver_lxd.Egress.Rules.{
  SocketAddr, insert_sorted, sort, dedup_from, dedup, text_le, addresses, ports,
}

module _ {A : Type 0} ⦃e : Eq A⦄ where
  contains-insert_sorted :
      (le : A → A → Bool) (x : A) (ys : List A) (a : A)
      → contains (insert_sorted le x ys) a ≡ (x == a || contains ys a)
  unfolding insert_sorted
  contains-insert_sorted le x [] a = refl
  contains-insert_sorted le x (y ∷ ys) a = ground (arith, contains-insert_sorted le x ys a)

  contains-sort :
      (le : A → A → Bool) (xs : List A) (a : A) → contains (sort le xs) a ≡ contains xs a
  unfolding sort
  contains-sort le [] a = refl
  contains-sort le (x ∷ xs) a =
      contains-insert_sorted le x (sort le xs) a ∙ ap (λ b. x == a || b) (contains-sort le xs a)

  skipped :
      (x y : A) (ys : List A) (a : A)
      → (x == y) ≡ true
      → (x == a || (y == a || contains ys a)) ≡ (x == a || contains ys a)
  skipped x y ys a h = rw ((e.equals_iff x y).0 h) (ground arith)

  contains-dedup_from :
      (x : A) (ys : List A) (a : A) → contains (dedup_from x ys) a ≡ (x == a || contains ys a)
  unfolding dedup_from
  contains-dedup_from x [] a = refl
  contains-dedup_from x (y ∷ ys) a =
      ground (arith, contains-dedup_from x ys a, contains-dedup_from y ys a, skipped x y ys a)

  contains-dedup : (xs : List A) (a : A) → contains (dedup xs) a ≡ contains xs a
  unfolding dedup
  contains-dedup [] a = refl
  contains-dedup (x ∷ xs) a = contains-dedup_from x xs a

  contains-map :
      {B : Type 0} (f : B → A) (xs : List B) (a : A)
      → contains (map f xs) a ≡ any (λ x. f x == a) xs
  contains-map f [] a = refl
  contains-map f (x ∷ xs) a = ap (λ b. f x == a || b) (contains-map f xs a)

module _ {A : Type 0} where
  any-keep : (p q : A → Bool) (xs : List A) → any p (keep q xs) ≡ any (λ x. q x && p x) xs
  any-keep p q [] = refl
  any-keep p q (x ∷ xs) = ground (arith, any-keep p q xs)

  any-and_left :
      (p q : A → Bool) (xs : List A)
      → (any p xs && any (λ x. p x && q x) xs) ≡ any (λ x. p x && q x) xs
  any-and_left p q [] = refl
  any-and_left p q (x ∷ xs) = ground (arith, any-and_left p q xs)

contains-ports :
    (gateway : List SocketAddr) (port : ℕ)
    → contains (ports gateway) port ≡ any (λ a. a.port == port) gateway
unfolding ports
contains-ports gateway port =
    contains-dedup (sort leb (map (λ a. a.port) gateway)) port
    ∙ (contains-sort leb (map (λ a. a.port) gateway) port ∙ contains-map (λ a. a.port) gateway port)

contains-addresses :
    (gateway : List SocketAddr) (port : ℕ) (ip : String)
    → contains (addresses port gateway) ip ≡ any (λ a. a.port == port && a.ip == ip) gateway
unfolding addresses
contains-addresses gateway port ip =
    let here = keep (λ a. a.port == port) gateway in
    contains-dedup (sort text_le (map (λ a. a.ip) here)) ip
    ∙ (contains-sort text_le (map (λ a. a.ip) here) ip
        ∙ (contains-map (λ a. a.ip) here ip
            ∙ any-keep (λ a. a.ip == ip) (λ a. a.port == port) gateway))

-- The rules for the gateway, one for each port with the addresses that it is reached at, list an
-- address under a port exactly when it is one of the gateway's with that port.
pub rules-gateway :
    (gateway : List SocketAddr) (port : ℕ) (ip : String)
    → (contains (ports gateway) port && contains (addresses port gateway) ip)
      ≡ any (λ a. a.port == port && a.ip == ip) gateway
rules-gateway gateway port ip =
    rw (contains-ports gateway port, contains-addresses gateway port ip)
      (any-and_left (λ a. a.port == port) (λ a. a.ip == ip) gateway)
