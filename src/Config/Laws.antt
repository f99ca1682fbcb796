-- ===== src/Config/Laws.antt =====
-- crates/openshell-driver-lxd/src/config.rs: what `Config::validate` accepts.
use openshell_driver_lxd.Common.{
  String, ◌≡◌, refl, arith, Option, none, some, Bool, true, false, not, ◌&&◌, ◌||◌,
}
use openshell_driver_lxd.Common.Text.{starts_with}
use openshell_driver_lxd.Lxd.Types.{Result, ok, err}
use openshell_driver_lxd.Config.{Config, guest_tls, is_some, validate, validate_endpoint}

-- The endpoint, if one is set, has the scheme of the sandboxes' connection.
abbrev pub endpoint_fits : Bool → Option String → Bool
endpoint_fits tls none = true
endpoint_fits true (some e) = starts_with e "https://"
endpoint_fits false (some e) = starts_with e "http://"

abbrev pub is_ok : Result String (Unit {0}) → Bool
is_ok (ok _) = true
is_ok (err _) = false

endpoint_lem :
    (tls : Bool) (endpoint : Option String)
    → is_ok (validate_endpoint tls endpoint) ≡ endpoint_fits tls endpoint
unfolding validate_endpoint
endpoint_lem true none = refl
endpoint_lem true (some e) = ground arith
endpoint_lem false none = refl
endpoint_lem false (some e) = ground arith

-- A configuration is accepted exactly when sandboxes get TLS materials or plaintext is allowed, a
-- TLS server name comes with materials, and the endpoint's scheme is the one that they imply.
pub validate_iff :
    (c : Config)
    → is_ok (validate c) ≡ (
        (is_some (guest_tls c)
          || (c.allow_plaintext_gateway && not (is_some c.gateway_tls_server_name)))
        && endpoint_fits (is_some (guest_tls c)) c.gateway_endpoint)
unfolding validate
validate_iff c = ground (arith, endpoint_lem (is_some (guest_tls c)) c.gateway_endpoint)
