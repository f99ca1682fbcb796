-- ===== src/Driver/Create/Provision.antt =====
-- crates/openshell-driver-lxd/src/driver.rs: `create_sandbox` up to the request that creates the
-- instance, and the whole of it; `ensure_egress_acl`.
pub mod Confined
use openshell_driver_lxd.Common.{
  ℕ, String, ◌<>◌, List, [], ◌∷◌, ◌++◌, Option, none, some, Bool, true, false, if◌then◌else◌, not,
  ◌==◌, string_eq,
}
use openshell_driver_lxd.Common.Text.{is_empty}
use openshell_driver_lxd.Common.Dict.{Dict}
use openshell_driver_lxd.Lxd.{Lxd}
use openshell_driver_lxd.Lxd.Types.{LxdError, Result, ok, err, Network}
use openshell_driver_lxd.Lxd.Actions.{Action, pure, raise, ◌>>=◌, ◌>>◌}
use openshell_driver_lxd.Lxd.Resources.{Cores}
use openshell_driver_lxd.Lxd.Client.Quiet.{through}
use openshell_driver_lxd.Lxd.Acls.{ensure_network_acl}
use openshell_driver_lxd.Lxd.Volumes.{Entry, ensure_supervisor_volume, ensure_dhcp_client_volume}
use openshell_driver_lxd.Errors.{
  DriverError, lxd, invalid_argument, failed_precondition, image_import, display,
}
use openshell_driver_lxd.Config.{Config, guest_tls, is_some}
use openshell_driver_lxd.Egress.Rules.{SocketAddr, rules, acl_name, public_cidr_texts}
use openshell_driver_lxd.Gc.{supervisor_volume_name, dhcp_client_volume_name}
use openshell_driver_lxd.Mapping.Request.{Floats, Sandbox, Spec, Template, Gpu}
use openshell_driver_lxd.Mapping.Config.{
  MainProcess, build_create_config, build_profiles, guest_sandbox_token_path,
}
use openshell_driver_lxd.Mapping.Devices.{Placement, resolve, build_create_devices}
use openshell_driver_lxd.Driver.Start.{read_guest_tls_files}
use openshell_driver_lxd.Driver.Checks.{
  validate_sandbox_create, check_placement, resolve_gateway_endpoint,
}
use openshell_driver_lxd.Driver.Create.{guest_config, create_and_launch}

-- `url::Host`
pub data UrlHost : Type 0 where
  ipv4 ipv6 domain : String → UrlHost

-- What the driver reads of a parsed URL: its host, and `port_or_known_default`.
pub record Url : Type 0 where
  pub host : Option UrlHost
  pub port : Option ℕ

-- What `create_sandbox` gets from elsewhere: the url crate, the resolver, the tar crate, the bytes of
-- a text; the supervisor's path and digest, the alias of an image, and the DHCP client's bytes and
-- digest with its script, which come from the host and the registry.
pub record Surroundings (L : Lxd) : Type 0 where
  pub parse_url : String → Result String Url
  pub lookup_host : String → ℕ → Result String (List SocketAddr)
  pub tarball : List Entry → Result LxdError (List ℕ)
  pub bytes : String → List ℕ
  pub supervisor : Action L (String × String)
  pub image_alias : String → Action L String
  pub dhcp_client : Action L (List ℕ × String)
  pub dhcp_client_script : List ℕ

-- All that is there when the instance is created.
pub record Provisioned : Type 0 where
  pub image_alias : String
  pub config : Dict String
  pub devices : Dict (Dict String)
  pub profiles : List String
  pub guest_files : List (String × List ℕ)

module _ {L : Lxd} {A : Type 0} where
  -- A result under `?`.
  abbrev pub given : Result DriverError A → Action L A
  given (ok a) = pure a
  given (err e) = raise e

abbrev pub or_port : Option ℕ → ℕ
or_port none = 443
or_port (some port) = port

abbrev pub or_text : Option String → String → String
or_text none d = d
or_text (some s) d = s

module _ (debug : String → String) (L : Lxd) (S : Surroundings L) where
  abbrev pub unresolved : String → String → DriverError
  unresolved host e =
      failed_precondition
        ("cannot resolve gateway endpoint host " <> (debug host <> (" for the egress ACL: " <> e)))

  abbrev pub looked_up : String → Result String (List SocketAddr) → Action L (List SocketAddr)
  looked_up host (ok addresses) = pure addresses
  looked_up host (err e) = raise (unresolved host e)

  abbrev pub host_addresses : Option UrlHost → ℕ → Action L (List SocketAddr)
  host_addresses none port = pure []
  host_addresses (some (ipv4 ip)) port = pure (record { ip = ip; port = port } ∷ [])
  host_addresses (some (ipv6 ip)) port = pure (record { ip = ip; port = port } ∷ [])
  host_addresses (some (domain host)) port = looked_up host (S.lookup_host host port)

  abbrev pub no_url : String → String → DriverError
  no_url endpoint e =
      failed_precondition ("gateway endpoint " <> (debug endpoint <> (" is not a URL: " <> e)))

  abbrev pub gateway_addresses : String → Result String Url → Action L (List SocketAddr)
  gateway_addresses endpoint (err e) = raise (no_url endpoint e)
  gateway_addresses endpoint (ok url) = host_addresses url.host (or_port url.port)

  abbrev pub no_address : String → DriverError
  no_address endpoint =
      failed_precondition
        ("gateway endpoint " <> (debug endpoint <> " names no address for the egress ACL"))

  abbrev pub acl_for : String → String → List SocketAddr → Action L String
  acl_for network_name endpoint [] = raise (no_address endpoint)
  acl_for network_name endpoint (a ∷ addresses) = do
    through lxd
        (ensure_network_acl L (acl_name network_name) (rules public_cidr_texts (a ∷ addresses)))
    pure (acl_name network_name)

  abbrev pub not_ovn : String → Network → DriverError
  not_ovn network_name network = failed_precondition (
      "--restrict-sandbox-egress needs sandboxes on an OVN network, where LXD applies ACLs to each NIC; "
      <> (debug network_name <> (" is a " <> (network.type_ <> " network"))))

  unfoldable pub ensure_egress_acl : String → Network → String → Action L String
  ensure_egress_acl network_name network endpoint =
      if not (network.type_ == "ovn") then raise (not_ovn network_name network) else do
        addresses ← gateway_addresses endpoint (S.parse_url endpoint)
        acl_for network_name endpoint addresses

module _ (debug : String → String) (is_match : String → Bool) (F : Floats) (C : Cores)
    (json_to_string : MainProcess → String) (c : Config) (L : Lxd) (S : Surroundings L) where
  abbrev pub optional_acl : Bool → Action L String → Action L (Option String)
  optional_acl false ensure = pure none
  optional_acl true ensure = do acl ← ensure; pure (some acl)

  abbrev pub token_files : Spec → List (String × List ℕ)
  token_files spec =
      if not (is_empty spec.sandbox_token)
      then (guest_sandbox_token_path, S.bytes spec.sandbox_token) ∷ []
      else []

  abbrev pub tls_files : Action L (List (String × List ℕ))
  tls_files = if is_some (guest_tls c) then read_guest_tls_files debug c L else pure []

  abbrev pub volume_failed : String → String → LxdError → DriverError
  volume_failed what pool e = image_import (
      what <> (" volume provisioning failed on pool " <> (debug pool <> (": " <> display debug e))))

  -- The image, the supervisor's and the DHCP client's volumes, and the devices.
  unfoldable pub provide :
      Spec
      → Template
      → Placement
      → Option String
      → Dict String
      → List (String × List ℕ)
      → Action L Provisioned
  provide spec template placement egress_acl config files = do
    let aux_pool = or_text c.supervisor_storage_pool placement.storage_pool
    (binary_path, digest) ← S.supervisor
    alias ← S.image_alias (if is_empty template.image then c.default_image else template.image)
    through (volume_failed "supervisor binary" aux_pool)
        (ensure_supervisor_volume S.tarball L aux_pool (supervisor_volume_name digest) binary_path)
    (dhcp_binary, dhcp_digest) ← S.dhcp_client
    through (volume_failed "DHCP client" aux_pool) (
        ensure_dhcp_client_volume S.tarball L aux_pool (dhcp_client_volume_name dhcp_digest)
          dhcp_binary S.dhcp_client_script)
    pure (record {
      image_alias = alias;
      config = config;
      devices =
          build_create_devices placement egress_acl (is_some spec.gpu) aux_pool
            (supervisor_volume_name digest) aux_pool (dhcp_client_volume_name dhcp_digest);
      profiles = build_profiles template;
      guest_files = files;
    })

  -- With the placement's network: the endpoint, the ACL, the configuration and the files.
  abbrev pub provide_on : Sandbox → Spec → Template → Placement → Network → Action L Provisioned
  provide_on sandbox spec template placement network = do
    endpoint ← given (resolve_gateway_endpoint debug c placement.network network)
    egress_acl ←
        optional_acl c.restrict_sandbox_egress
          (ensure_egress_acl debug L S placement.network network endpoint)
    config ← given (
        build_create_config debug F C json_to_string sandbox spec template endpoint
          (not (is_empty spec.sandbox_token)) c.default_max_processes)
    files ← tls_files
    provide spec template placement egress_acl (guest_config c config) (token_files spec ++ files)

  abbrev pub provide_template : Sandbox → Spec → Option Template → Action L Provisioned
  provide_template sandbox spec none = raise (invalid_argument "sandbox.spec.template is required")
  provide_template sandbox spec (some template) = do
    let placement = resolve template c.default_network c.default_storage_pool
    network ← check_placement debug c L placement
    provide_on sandbox spec template placement network

  abbrev pub provide_spec : Sandbox → Option Spec → Action L Provisioned
  provide_spec sandbox none = raise (invalid_argument "sandbox.spec is required")
  provide_spec sandbox (some spec) = provide_template sandbox spec spec.template

  -- `create_sandbox` before `create_instance`. The locks on the volumes, and the one that keeps
  -- clean-up away from them, are not part of the model.
  unfoldable pub prepare : Sandbox → Action L Provisioned
  prepare sandbox = do
    given (validate_sandbox_create debug is_match sandbox)
    provide_spec sandbox sandbox.spec

  unfoldable pub create_sandbox : Sandbox → Action L (Unit {0})
  create_sandbox sandbox = do
    p ← prepare sandbox
    create_and_launch debug c L sandbox.name sandbox.id p.image_alias p.config p.devices p.profiles
        p.guest_files
