-- ===== src/Driver/Create/Provision/Confined.antt =====
-- crates/openshell-driver-lxd/src/driver.rs, `create_sandbox` with `--restrict-sandbox-egress`.
use openshell_driver_lxd.Common.{
  ◌≡◌, refl, ℕ, String, List, [], ◌∷◌, Option, none, some, Bool, true, false, string_eq, subst,
  ◌==◌, Bool-cases, inl, inr,
}
use openshell_driver_lxd.Common.Dict.{Dict, lookup}
use openshell_driver_lxd.Lxd.{Lxd}
use openshell_driver_lxd.Lxd.Types.{LxdError, Result, ok, err, Network}
use openshell_driver_lxd.Lxd.Actions.{World, Action, pure, raise, continue, ◌>>=◌}
use openshell_driver_lxd.Lxd.Resources.{Cores}
use openshell_driver_lxd.Lxd.Client.Quiet.{through, mapped}
use openshell_driver_lxd.Lxd.Acls.{ensure_network_acl}
use openshell_driver_lxd.Errors.{DriverError, lxd}
use openshell_driver_lxd.Config.{Config, is_some}
use openshell_driver_lxd.Egress.Rules.{SocketAddr, rules, acl_name, public_cidr_texts}
use openshell_driver_lxd.Mapping.Request.{Floats, Sandbox, Spec, Template}
use openshell_driver_lxd.Mapping.Config.{MainProcess}
use openshell_driver_lxd.Mapping.Devices.{Placement, resolve}
use openshell_driver_lxd.Mapping.Devices.Confinement.{
  Behind, ReadOnly, build_create_devices-confined,
}
use openshell_driver_lxd.Driver.Checks.{
  check_placement, resolve_gateway_endpoint, validate_sandbox_create,
}
use openshell_driver_lxd.Driver.Create.Provision.{
  Url, UrlHost, ipv4, ipv6, domain, given, or_port, looked_up, host_addresses, Surroundings,
  Provisioned, acl_for, ensure_egress_acl, optional_acl, provide, provide_on, provide_template,
  provide_spec, prepare, gateway_addresses,
}

-- Whenever the action succeeds, what it returns satisfies the predicate.
record Yields {L : Lxd} {A : Type 0} (m : Action L A) (P : A → Type 0) : Type 0 where
  at : (w : World L) (a : A) → (m w).0 ≡ ok a → P a

module _ {L : Lxd} {A : Type 0} {P : A → Type 0} where
  Yields-pure : (a : A) → P a → Yields {L = L} (pure a) P
  unfolding pure
  Yields-pure a x = record { at = λ w b h. subst P (cc (h)) x }

  Yields-raise : (e : DriverError) → Yields {L = L} (raise e) P
  unfolding raise
  Yields-raise e = record { at = λ w b h. cc (h) }

module _ {L : Lxd} {A B : Type 0} {P : B → Type 0} (Q : A → Type 0) where
  continued :
      (r : Result DriverError A) (f : A → Action L B) (v : World L) (b : B)
      → ((a : A) → r ≡ ok a → Q a)
      → ((a : A) → Q a → Yields (f a) P)
      → (continue r f v).0 ≡ ok b
      → P b
  continued (ok a) f v b q next h = (next a (q a refl)).at v b h
  continued (err e) f v b q next h = cc (h)

  Yields-bind :
      (m : Action L A) (f : A → Action L B)
      → Yields m Q
      → ((a : A) → Q a → Yields (f a) P)
      → Yields (m >>= f) P
  unfolding ◌>>=◌
  Yields-bind m f q next = record {
    at = λ w b h. let (r, v) = m w in continued r f v b (λ a e. q.at w a e) next h;
  }

module _ {L : Lxd} {A B : Type 0} {P : B → Type 0} where
  Yields-then :
      (m : Action L A) (f : A → Action L B) → ((a : A) → Yields (f a) P) → Yields (m >>= f) P
  Yields-then m f next =
      Yields-bind (λ a. Unit {0}) m f (record { at = λ w a h. tt }) (λ a _. next a)

through-ok :
    {A : Type 0} (f : LxdError → DriverError) (r : Result LxdError A) (a : A)
    → mapped f r ≡ ok a
    → r ≡ ok a
through-ok f (ok b) a h = cc
through-ok f (err e) a h = cc

-- The addresses that an endpoint names: that of its host with its port, 443 by default, or those that the
-- name of its host stands for.
pub data Reaches {L : Lxd} (S : Surroundings L) (endpoint : String) : List SocketAddr → Type 0 where
  by_ipv4 :
      (url : Url) (ip : String)
      → S.parse_url endpoint ≡ ok url
      → url.host ≡ some (ipv4 ip)
      → Reaches S endpoint (record { ip = ip; port = or_port url.port } ∷ [])
  by_ipv6 :
      (url : Url) (ip : String)
      → S.parse_url endpoint ≡ ok url
      → url.host ≡ some (ipv6 ip)
      → Reaches S endpoint (record { ip = ip; port = or_port url.port } ∷ [])
  by_name :
      {addresses : List SocketAddr} (url : Url) (host : String)
      → S.parse_url endpoint ≡ ok url
      → url.host ≡ some (domain host)
      → S.lookup_host host (or_port url.port) ≡ ok addresses
      → Reaches S endpoint addresses

-- In a run that begins in the world `w`: the placement's network was read, the gateway's endpoint on it
-- names the addresses `first` and `others` and no other, and then LXD was asked to bring the ACL of the
-- network up to date with the rules for all of these, and that succeeded.
pub record AclEnsured (debug : String → String) (c : Config) (L : Lxd) (S : Surroundings L)
    (placement : Placement) (w : World L) : Type 0 where
  pub network : Network
  pub endpoint : String
  pub first : SocketAddr
  pub others : List SocketAddr
  pub read : (check_placement debug c L placement w).0 ≡ ok network
  pub resolved : resolve_gateway_endpoint debug c placement.network network ≡ ok endpoint
  pub reached : Reaches S endpoint (first ∷ others)
  pub is_ensured :
      (ensure_network_acl L
        (acl_name placement.network)
        (rules public_cidr_texts (first ∷ others))
        (check_placement debug c L placement w).1).0
      ≡ ok tt

module _ {L : Lxd} {A B : Type 0} where
  -- An action that succeeds has a first step that succeeds.
  >>=-first :
      (m : Action L A) (f : A → Action L B) (w : World L) (b : B)
      → ((m >>= f) w).0 ≡ ok b
      → (a : A) × ((m w).0 ≡ ok a) × ((f a (m w).1).0 ≡ ok b)
  unfolding ◌>>=◌
  >>=-first m f w b h = let (r, v) = m w in stepped r v h
    where
      stepped :
          (r : Result DriverError A) (v : World L)
          → (continue r f v).0 ≡ ok b
          → (a : A) × (r ≡ ok a) × ((f a v).0 ≡ ok b)
      stepped (ok a) v h = (a, refl, h)
      stepped (err e) v h = cc (h)

given-ok :
    {L : Lxd} {A : Type 0} (r : Result DriverError A) (w : World L) (a : A)
    → (given r w).0 ≡ ok a
    → (r ≡ ok a) × ((given r w).1 ≡ w)
unfolding pure raise
given-ok (ok b) w a h = (h, refl)
given-ok (err e) w a h = cc (h)

module _ (debug : String → String) (L : Lxd) (S : Surroundings L) (endpoint : String) where
  -- What is found leaves the world as it is.
  abbrev FoundAt : List SocketAddr → World L → World L → Type 0
  FoundAt addresses v w = Reaches S endpoint addresses × (v ≡ w)

  looked_up-FoundAt :
      (url : Url) (host : String) (r : Result String (List SocketAddr)) (w : World L)
      (addresses : List SocketAddr)
      → S.parse_url endpoint ≡ ok url
      → url.host ≡ some (domain host)
      → S.lookup_host host (or_port url.port) ≡ r
      → (looked_up debug L S host r w).0 ≡ ok addresses
      → FoundAt addresses (looked_up debug L S host r w).1 w
  unfolding pure raise
  looked_up-FoundAt url host (ok found) w addresses parsed hosted same h =
      (by_name url host parsed hosted (cc (same, h)), refl)
  looked_up-FoundAt url host (err e) w addresses parsed hosted same h = cc (h)

  host_addresses-FoundAt :
      (url : Url) (host : Option UrlHost) (w : World L) (a : SocketAddr) (rest : List SocketAddr)
      → S.parse_url endpoint ≡ ok url
      → url.host ≡ host
      → (host_addresses debug L S host (or_port url.port) w).0 ≡ ok (a ∷ rest)
      → FoundAt (a ∷ rest) (host_addresses debug L S host (or_port url.port) w).1 w
  unfolding pure
  host_addresses-FoundAt url none w a rest parsed hosted h = cc (h)
  host_addresses-FoundAt url (some (ipv4 ip)) w a rest parsed hosted h =
      (subst (Reaches S endpoint) (cc (h)) (by_ipv4 url ip parsed hosted), refl)
  host_addresses-FoundAt url (some (ipv6 ip)) w a rest parsed hosted h =
      (subst (Reaches S endpoint) (cc (h)) (by_ipv6 url ip parsed hosted), refl)
  host_addresses-FoundAt url (some (domain host)) w a rest parsed hosted h =
      looked_up-FoundAt url host (S.lookup_host host (or_port url.port)) w (a ∷ rest) parsed hosted
        refl h

  gateway_addresses-FoundAt :
      (r : Result String Url) (w : World L) (a : SocketAddr) (rest : List SocketAddr)
      → S.parse_url endpoint ≡ r
      → (gateway_addresses debug L S endpoint r w).0 ≡ ok (a ∷ rest)
      → FoundAt (a ∷ rest) (gateway_addresses debug L S endpoint r w).1 w
  unfolding raise
  gateway_addresses-FoundAt (err e) w a rest parsed h = cc (h)
  gateway_addresses-FoundAt (ok url) w a rest parsed h =
      host_addresses-FoundAt url url.host w a rest parsed refl h

-- An ACL that was brought up to date in the world `w`, for all that an endpoint names.
record Ensures (L : Lxd) (S : Surroundings L) (name endpoint acl : String) (w : World L)
    : Type 0 where
  named : acl_name name ≡ acl
  first : SocketAddr
  others : List SocketAddr
  reached : Reaches S endpoint (first ∷ others)
  is_ensured :
      (ensure_network_acl L (acl_name name) (rules public_cidr_texts (first ∷ others)) w).0 ≡ ok tt

module _ (debug : String → String) (L : Lxd) (S : Surroundings L) (name endpoint acl : String) where
  acl_for-Ensures :
      (addresses : List SocketAddr) (v w : World L)
      → ((a : SocketAddr) (rest : List SocketAddr)
          → addresses ≡ a ∷ rest
          → FoundAt debug L S endpoint (a ∷ rest) v w)
      → (acl_for debug L S name endpoint addresses v).0 ≡ ok acl
      → Ensures L S name endpoint acl w
  unfolding through pure raise
  acl_for-Ensures [] v w found h = cc (h)
  acl_for-Ensures (a ∷ rest) v w found h =
      let (reached, same) = found a rest refl in
      let (u, ensured, last) =
        >>=-first
          (through lxd (ensure_network_acl L (acl_name name) (rules public_cidr_texts (a ∷ rest))))
          (λ _. pure (acl_name name)) v acl h in
      record {
        named = cc (last);
        first = a;
        others = rest;
        reached = reached;
        is_ensured =
            subst
              (λ x.
                (ensure_network_acl L (acl_name name) (rules public_cidr_texts (a ∷ rest)) x).0
                ≡ ok tt)
              same (through-ok lxd _ tt ensured);
      }

  ensure_egress_acl-Ensures :
      (network : Network) (w : World L)
      → (ensure_egress_acl debug L S name network endpoint w).0 ≡ ok acl
      → Ensures L S name endpoint acl w
  unfolding ensure_egress_acl raise
  ensure_egress_acl-Ensures network w h = elim (Bool-cases (network.type_ == "ovn")) [
    | inr other ↦ cc (rw other at h)
    | inl ovn ↦
        let (addresses, found, last) =
          >>=-first (gateway_addresses debug L S endpoint (S.parse_url endpoint))
            (λ addresses. acl_for debug L S name endpoint addresses) w acl (rw ovn at h) in
        acl_for-Ensures addresses _ w
          (λ a rest same.
            gateway_addresses-FoundAt debug L S endpoint (S.parse_url endpoint) w a rest refl
              (cc (found, same)))
          last
  ]

-- The NIC is behind the network's ACL and rejects the rest, and the auxiliary volumes are read-only.
abbrev pub Fenced : String → Provisioned → Type 0
Fenced network p =
    Behind network (acl_name network) (lookup "eth0" p.devices)
    × ReadOnly (lookup "supervisor" p.devices)
    × ReadOnly (lookup "dhcp-client" p.devices)

-- The same on the placement's network, whose ACL was brought up to date for the gateway.
abbrev pub Confined :
    (String → String)
    → Config
    → (L : Lxd) → Surroundings L
    → Placement
    → World L
    → Provisioned
    → Type 0
Confined debug c L S placement w p = Fenced placement.network p × AclEnsured debug c L S placement w

module _ (debug : String → String) (is_match : String → Bool) (F : Floats) (C : Cores)
    (json_to_string : MainProcess → String) (c : Config) (L : Lxd) (S : Surroundings L) where
  provide-Fenced :
      (spec : Spec) (template : Template) (placement : Placement) (config : Dict String)
      (files : List (String × List ℕ))
      → Yields
          (provide debug is_match F C json_to_string c L S spec template placement
            (some (acl_name placement.network))
            config
            files)
          (Fenced placement.network)
  unfolding provide
  provide-Fenced spec template placement config files = Yields-then _ _ (λ x.
      Yields-then _ _ (λ alias. Yields-then _ _ (λ _. Yields-then _ _ (λ y. Yields-then _ _ (λ _.
        Yields-pure _ (
          build_create_devices-confined placement (acl_name placement.network) (is_some spec.gpu) _
            _ _ _))))))

  provide_with :
      (spec : Spec) (template : Template) (placement : Placement) (acl : String) (o : Option String)
      (config : Dict String) (files : List (String × List ℕ))
      → acl_name placement.network ≡ acl
      → o ≡ some acl
      → Yields
          (provide debug is_match F C json_to_string c L S spec template placement o config files)
          (Fenced placement.network)
  provide_with spec template placement acl o config files same h =
      subst
        (λ o.
          Yields
            (provide debug is_match F C json_to_string c L S spec template placement o config files)
            (Fenced placement.network))
        (cc (same, h)) (provide-Fenced spec template placement config files)

  -- The ACL, where one is asked for, comes from a step that succeeded.
  optional_acl-ok :
      (on : Bool) (ensure : Action L String) (w : World L) (o : Option String)
      → on ≡ true
      → (optional_acl debug is_match F C json_to_string c L S on ensure w).0 ≡ ok o
      → (acl : String) × ((ensure w).0 ≡ ok acl) × (o ≡ some acl)
  unfolding pure
  optional_acl-ok true ensure w o on h =
      let (acl, made, last) = >>=-first ensure (λ acl. pure (some acl)) w o h in
      (acl, made, cc (last))
  optional_acl-ok false ensure w o on h = cc (on)

  -- What comes once the network was read, in the world `v`.
  provide_on-Confined :
      (sandbox : Sandbox) (spec : Spec) (template : Template) (placement : Placement)
      (network : Network) (w v : World L) (p : Provisioned)
      → c.restrict_sandbox_egress ≡ true
      → (check_placement debug c L placement w).0 ≡ ok network
      → (check_placement debug c L placement w).1 ≡ v
      → (provide_on debug is_match F C json_to_string c L S sandbox spec template placement network
          v).0
        ≡ ok p
      → Confined debug c L S placement w p
  provide_on-Confined sandbox spec template placement network w v p on read there h =
      let (endpoint, given_one, rest) =
        >>=-first (given (resolve_gateway_endpoint debug c placement.network network)) _ v p h in
      let (resolved, still) =
        given-ok (resolve_gateway_endpoint debug c placement.network network) v endpoint
          given_one in
      let (o, optional, last) = >>=-first _ _ _ p rest in
      let (acl, made, is_acl) =
        optional_acl-ok c.restrict_sandbox_egress
          (ensure_egress_acl debug L S placement.network network endpoint) _ o on optional in
      let e = ensure_egress_acl-Ensures debug L S placement.network endpoint acl network _ made in
      (
        (Yields-then _ _ (λ config.
              Yields-then _ _
                (λ files. provide_with spec template placement acl o _ _ e.named is_acl))).at
            _ p last,
        record {
          network = network;
          endpoint = endpoint;
          first = e.first;
          others = e.others;
          read = read;
          resolved = resolved;
          reached = e.reached;
          is_ensured =
              subst
                (λ x.
                  (ensure_network_acl L (acl_name placement.network)
                    (rules public_cidr_texts (e.first ∷ e.others)) x).0
                  ≡ ok tt)
                (cc (still, there)) e.is_ensured;
        },
      )

  provide_template-Confined :
      (sandbox : Sandbox) (spec : Spec) (template : Template) (w : World L) (p : Provisioned)
      → c.restrict_sandbox_egress ≡ true
      → (provide_template debug is_match F C json_to_string c L S sandbox spec (some template) w).0
        ≡ ok p
      → Confined debug c L S (resolve template c.default_network c.default_storage_pool) w p
  provide_template-Confined sandbox spec template w p on h =
      let placement = resolve template c.default_network c.default_storage_pool in
      let (network, read, rest) = >>=-first (check_placement debug c L placement) _ w p h in
      provide_on-Confined sandbox spec template placement network w _ p on read refl rest

  provide_spec-Confined :
      (sandbox : Sandbox) (spec : Spec) (template : Template) (w : World L) (p : Provisioned)
      → c.restrict_sandbox_egress ≡ true
      → spec.template ≡ some template
      → (provide_spec debug is_match F C json_to_string c L S sandbox (some spec) w).0 ≡ ok p
      → Confined debug c L S (resolve template c.default_network c.default_storage_pool) w p
  provide_spec-Confined sandbox spec template w p on e h =
      provide_template-Confined sandbox spec template w p on (
        subst
          (λ o.
            (provide_template debug is_match F C json_to_string c L S sandbox spec o w).0 ≡ ok p)
          e h)

-- With `--restrict-sandbox-egress`: all that `create_sandbox` makes ready for an instance puts its
-- NIC, on the placement's network, behind that network's ACL, which rejects the rest both ways; the
-- volumes of the supervisor and of the DHCP client are read-only; and, right after the placement was
-- checked, LXD was asked to bring that ACL up to date with the rules for all the addresses that the
-- gateway's endpoint on that network names, at least one, and this succeeded.
pub prepare-Confined :
    (debug : String → String) (is_match : String → Bool) (F : Floats) (C : Cores)
    (json_to_string : MainProcess → String) (c : Config) (L : Lxd) (S : Surroundings L)
    (sandbox : Sandbox) (spec : Spec) (template : Template) (w : World L) (p : Provisioned)
    → c.restrict_sandbox_egress ≡ true
    → sandbox.spec ≡ some spec
    → spec.template ≡ some template
    → (prepare debug is_match F C json_to_string c L S sandbox w).0 ≡ ok p
    → Confined debug c L S (resolve template c.default_network c.default_storage_pool) w p
unfolding prepare
prepare-Confined debug is_match F C json_to_string c L S sandbox spec template w p on e e' h =
    let (_, validated, rest) =
      >>=-first (given (validate_sandbox_create debug is_match sandbox)) _ w p h in
    let (_, still) = given-ok (validate_sandbox_create debug is_match sandbox) w tt validated in
    provide_spec-Confined debug is_match F C json_to_string c L S sandbox spec template w p on e'
      (prepared still rest)
  where
    prepared :
        {v : World L}
        → v ≡ w
        → (provide_spec debug is_match F C json_to_string c L S sandbox sandbox.spec v).0 ≡ ok p
        → (provide_spec debug is_match F C json_to_string c L S sandbox (some spec) w).0 ≡ ok p
    prepared {v} still rest =
        subst (λ o. (provide_spec debug is_match F C json_to_string c L S sandbox o w).0 ≡ ok p) e
          (subst
            (λ x.
              (provide_spec debug is_match F C json_to_string c L S sandbox sandbox.spec x).0
              ≡ ok p)
            still rest)
