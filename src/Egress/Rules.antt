-- ===== src/Egress/Rules.antt =====
-- crates/openshell-driver-lxd/src/egress.rs: the rules of the ACL (`rules`), and the ACL's name. An
-- address is its text; `cidrs` are the printed blocks of `public_ipv4_cidrs`.
pub mod Gateway
use Prim.Native.Char.{code}
use openshell_driver_lxd.Common.{
  ℕ, ◌/◌, ◌%◌, String, ◌<>◌, List, [], ◌∷◌, ◌++◌, map, some, none, Bool, true, false, ◌&&◌, ◌||◌,
  ◌==◌, nat_eq, string_eq, leb, ltb, if◌then◌else◌, keep, nat_beq, Eq,
}
use openshell_driver_lxd.Common.Decimal.{show}
use openshell_driver_lxd.Egress.{Cidr, public_ipv4_cidrs}
use openshell_driver_lxd.Lxd.Acls.{Rule, tcp, allow_egress, described}

-- `SocketAddr`
pub record SocketAddr : Type 0 where
  pub ip : String
  pub port : ℕ

abbrev pub acl_prefix : String
acl_prefix = "openshell-egress-"

unfoldable pub acl_name : String → String
acl_name network = acl_prefix <> network

-- The order of texts, by their characters.
unfoldable pub text_le : String → String → Bool
text_le String.[] t = true
text_le (String.◌∷◌ c s) String.[] = false
text_le (String.◌∷◌ c s) (String.◌∷◌ d t) =
    ltb (code c) (code d) || (nat_beq (code c) (code d) && text_le s t)

module _ {A : Type 0} (le : A → A → Bool) where
  unfoldable pub insert_sorted : A → List A → List A
  insert_sorted x [] = x ∷ []
  insert_sorted x (y ∷ ys) =
      let rest = insert_sorted x ys in if le x y then x ∷ y ∷ ys else y ∷ rest

  -- `sort` and `sort_unstable`
  unfoldable pub sort : List A → List A
  sort [] = []
  sort (x ∷ xs) = insert_sorted x (sort xs)

module _ {A : Type 0} ⦃e : Eq A⦄ where
  -- `dedup`: of equal neighbours the first one stays.
  unfoldable pub dedup_from : A → List A → List A
  dedup_from x [] = x ∷ []
  dedup_from x (y ∷ ys) =
      let rest = dedup_from y ys in
      let skipped = dedup_from x ys in if x == y then skipped else x ∷ rest

  unfoldable pub dedup : List A → List A
  dedup [] = []
  dedup (x ∷ xs) = dedup_from x xs

-- `join(",")`
unfoldable pub join_commas : List String → String
join_commas [] = ""
join_commas (s ∷ []) = s
join_commas (s ∷ t ∷ ts) = s <> ("," <> join_commas (t ∷ ts))

-- What `join` is given, and what it joins.
unfoldable pub addresses : ℕ → List SocketAddr → List String
addresses port gateway = dedup (sort text_le (map (λ a. a.ip) (keep (λ a. a.port == port) gateway)))

unfoldable pub ports : List SocketAddr → List ℕ
ports gateway = dedup (sort leb (map (λ a. a.port) gateway))

abbrev pub gateway_rule : List SocketAddr → ℕ → Rule
gateway_rule gateway port =
    described (allow_egress (join_commas (addresses port gateway)) (some tcp) (show port))
      "OpenShell gateway"

abbrev pub public_ipv6 : String
public_ipv6 = "2000::/3"

unfoldable pub rules : List String → List SocketAddr → List Rule
rules cidrs gateway =
    map (gateway_rule gateway) (ports gateway)
    ++ described (allow_egress (join_commas cidrs) none "") "public IPv4 internet"
      ∷ described (allow_egress public_ipv6 none "") "public IPv6 internet"
      ∷ []

-- `format!("{address}/{prefix}")` of an `Ipv4Addr`.
unfoldable pub cidr_text : Cidr → String
cidr_text b =
    show (b.address / 16777216)
    <> ("."
        <> (show (b.address / 65536 % 256)
            <> ("."
                <> (show (b.address / 256 % 256)
                    <> ("." <> (show (b.address % 256) <> ("/" <> show b.prefix)))))))

-- What `public_ipv4_cidrs` returns. It does not panic.
unfoldable pub public_cidr_texts : List String
public_cidr_texts = elim public_ipv4_cidrs [ none ↦ [] | some blocks ↦ map cidr_text blocks ]
