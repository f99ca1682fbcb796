-- ===== src/Driver/Checks/Endpoint.antt =====
-- crates/openshell-driver-lxd/src/driver.rs and config.rs: the scheme of the endpoint that sandboxes get.
use openshell_driver_lxd.Common.{
  String, ◌<>◌, ◌≡◌, refl, ap, subst, ◌∙◌, arith, Option, none, some, Bool, true, false, ◌==◌,
  string_eq, if◌then◌else◌, Bool-cases, inl, inr,
}
use openshell_driver_lxd.Common.Decimal.{show}
use openshell_driver_lxd.Common.Dict.{lookup}
use openshell_driver_lxd.Common.Text.{starts_with, strip_prefix-append, before_first}
use openshell_driver_lxd.Lxd.Types.{Result, ok, err, Network}
use openshell_driver_lxd.Errors.{DriverError}
use openshell_driver_lxd.Config.{
  Config, guest_tls, is_some, gateway_scheme, validate, validate_endpoint,
}
use openshell_driver_lxd.Driver.Checks.{
  resolve_gateway_endpoint, host_endpoint, derived_endpoint, endpoint_or,
}
use text.Mathlib.TextLemmas.{append_assoc}

-- The scheme that TLS materials imply.
abbrev pub scheme : Bool → String
scheme true = "https://"
scheme false = "http://"

scheme-gateway : (c : Config) → gateway_scheme c <> "://" ≡ scheme (is_some (guest_tls c))
unfolding gateway_scheme
scheme-gateway c = elim (Bool-cases (is_some (guest_tls c))) [
  | inl h ↦ rw h refl
  | inr h ↦ rw h refl
]

validate_endpoint-scheme :
    (tls : Bool) (e : String)
    → validate_endpoint tls (some e) ≡ ok tt
    → starts_with e (scheme tls) ≡ true
unfolding validate_endpoint
validate_endpoint-scheme true e h = ground arith
validate_endpoint-scheme false e h = ground arith

validate-validate_endpoint :
    (c : Config)
    → validate c ≡ ok tt
    → validate_endpoint (is_some (guest_tls c)) c.gateway_endpoint ≡ ok tt
unfolding validate
validate-validate_endpoint c h = ground arith

starts_with-append : (p s : String) → starts_with (p <> s) p ≡ true
unfolding starts_with
starts_with-append p s =
    ap (λ o. elim o [ none ↦ false | some rest ↦ true ]) (strip_prefix-append p s)

ok-eq : (a b : String) → Path (Result DriverError String) (ok a) (ok b) → a ≡ b
ok-eq a b h = cc

host_endpoint-scheme :
    (debug : String → String) (c : Config) (name : String) (address : Option String)
    (endpoint : String)
    → host_endpoint debug c name address ≡ ok endpoint
    → starts_with endpoint (gateway_scheme c <> "://") ≡ true
host_endpoint-scheme debug c name none endpoint h = absurd (ground (arith, h))
host_endpoint-scheme debug c name (some cidr) endpoint h =
    let rest = before_first b'/' cidr <> (":" <> show c.gateway_grpc_port) in
    subst (λ e. starts_with e (gateway_scheme c <> "://") ≡ true)
      (append_assoc (gateway_scheme c) "://" rest ∙ ok-eq _ endpoint h)
      (starts_with-append (gateway_scheme c <> "://") rest)

-- The endpoint where the configuration sets none.
derived-scheme :
    (debug : String → String) (c : Config) (name : String) (address : Option String) (ovn : Bool)
    (e : DriverError) (endpoint : String)
    → (if ovn then err e else host_endpoint debug c name address) ≡ ok endpoint
    → starts_with endpoint (gateway_scheme c <> "://") ≡ true
derived-scheme debug c name address true e endpoint h = absurd (ground (arith, h))
derived-scheme debug c name address false e endpoint h =
    host_endpoint-scheme debug c name address endpoint h

endpoint_or-scheme :
    (debug : String → String) (c : Config) (name : String) (network : Network) (set : Option String)
    (endpoint : String)
    → validate_endpoint (is_some (guest_tls c)) set ≡ ok tt
    → endpoint_or debug c set (derived_endpoint debug c name network) ≡ ok endpoint
    → starts_with endpoint (gateway_scheme c <> "://") ≡ true
endpoint_or-scheme debug c name network none endpoint valid h =
    derived-scheme debug c name (lookup "ipv4.address" network.config) (network.type_ == "ovn") _
      endpoint h
endpoint_or-scheme debug c name network (some e) endpoint valid h =
    subst (λ x. starts_with x (gateway_scheme c <> "://") ≡ true) (ok-eq e endpoint h)
      (ap (starts_with e) (scheme-gateway c)
        ∙ validate_endpoint-scheme (is_some (guest_tls c)) e valid)

-- Where the driver's configuration is valid, the endpoint that a sandbox gets has the scheme of its
-- connection: https exactly when sandboxes are given TLS materials, whether the endpoint is configured
-- or made from the network's address.
pub resolve_gateway_endpoint-scheme :
    (debug : String → String) (c : Config) (name : String) (network : Network) (endpoint : String)
    → validate c ≡ ok tt
    → resolve_gateway_endpoint debug c name network ≡ ok endpoint
    → starts_with endpoint (scheme (is_some (guest_tls c))) ≡ true
unfolding resolve_gateway_endpoint
resolve_gateway_endpoint-scheme debug c name network endpoint valid h =
    subst (λ p. starts_with endpoint p ≡ true) (scheme-gateway c)
      (endpoint_or-scheme debug c name network c.gateway_endpoint endpoint
        (validate-validate_endpoint c valid) h)
