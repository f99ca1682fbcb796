-- ===== src/Config.antt =====
-- crates/openshell-driver-lxd/src/config.rs: the options that the driver's logic reads, and their
-- validation. A path is its text.
pub mod Laws
use openshell_driver_lxd.Common.{
  ℕ, String, ◌<>◌, Option, none, some, Bool, true, false, not, ◌&&◌, ◌||◌, if◌then◌else◌, leb,
  nat_beq, ◌==◌, string_eq,
}
use openshell_driver_lxd.Common.Text.{starts_with}
use openshell_driver_lxd.Lxd.Types.{Result, ok, err}

-- `i64`
pub data I64 : Type 0 where
  pos : ℕ → I64
  negsuc : ℕ → I64

pub record Config : Type 0 where
  pub project : String
  pub default_image : String
  pub default_network : String
  pub default_storage_pool : String
  pub supervisor_bin : Option String
  pub supervisor_image : String
  pub dhcp_client_bin : Option String
  pub supervisor_cache_dir : String
  pub image_work_dir : String
  pub supervisor_storage_pool : Option String
  pub default_max_processes : ℕ
  pub start_retries : ℕ
  pub stop_timeout_secs : I64
  pub operation_timeout_secs : ℕ
  pub gateway_grpc_port : ℕ
  pub gateway_endpoint : Option String
  pub sandbox_nesting : Bool
  pub restrict_sandbox_egress : Bool
  pub guest_tls_ca : Option String
  pub guest_tls_cert : Option String
  pub guest_tls_key : Option String
  pub gateway_tls_server_name : Option String
  pub allow_plaintext_gateway : Bool
  pub image_cache_alias_prefix : String

pub record GuestTls : Type 0 where
  pub ca : String
  pub cert : String
  pub key : String

abbrev all_three : Option String → Option String → Option String → Option GuestTls
all_three (some ca) (some cert) (some key) = some (record { ca = ca; cert = cert; key = key })
all_three _ _ _ = none

unfoldable pub guest_tls : Config → Option GuestTls
guest_tls c = all_three c.guest_tls_ca c.guest_tls_cert c.guest_tls_key

abbrev pub is_some {ℓ} : {A : Type ℓ} → Option A → Bool
is_some none = false
is_some (some a) = true

unfoldable pub gateway_scheme : Config → String
unfolding guest_tls
gateway_scheme c = if is_some (guest_tls c) then "https" else "http"

-- `Config::validate`, the last match: the scheme of the endpoint against the TLS materials.
unfoldable pub validate_endpoint : Bool → Option String → Result String (Unit {0})
validate_endpoint tls none = ok tt
validate_endpoint tls (some endpoint) =
    if tls && not (starts_with endpoint "https://")
    then err (
        "--gateway-endpoint "
        <> (endpoint
            <> " is not https, but sandboxes are given TLS materials; use an https:// endpoint"))
    else if not tls && not (starts_with endpoint "http://")
    then err (
        "--gateway-endpoint "
        <> (endpoint
            <> " is https, which needs --guest-tls-ca, --guest-tls-cert and --guest-tls-key"))
    else ok tt

unfoldable pub validate : Config → Result String (Unit {0})
unfolding guest_tls validate_endpoint
validate c =
    let tls = is_some (guest_tls c) in
    if not tls && not c.allow_plaintext_gateway
    then err
        "sandboxes connect to the gateway over TLS: set --guest-tls-ca, --guest-tls-cert and --guest-tls-key (--allow-plaintext-gateway permits a plaintext gateway for local testing)"
    else if not tls && is_some c.gateway_tls_server_name
    then err
        "--gateway-tls-server-name needs --guest-tls-ca, --guest-tls-cert and --guest-tls-key: without TLS there is no certificate to verify"
    else validate_endpoint tls c.gateway_endpoint
