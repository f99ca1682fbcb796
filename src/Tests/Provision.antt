-- ===== src/Tests/Provision.antt =====
-- The theorems on what a sandbox is given, at the toy LXD.
use openshell_driver_lxd.Common.{
  ◌≡◌, refl, ℕ, String, List, [], ◌∷◌, map, none, some, Bool, true, nat_eq, string_eq,
}
use openshell_driver_lxd.Common.Dict.{lookup, insert}
use openshell_driver_lxd.Common.Text.{split_once, all_chars}
use openshell_driver_lxd.Lxd.{
  Lxd, Request, Response, get_network, get_network_acl, create_network_acl,
}
use openshell_driver_lxd.Lxd.Types.{LxdError, Result, ok, err, Network}
use openshell_driver_lxd.Lxd.Actions.{World, pure, raise, try_send, send, ◌>>=◌}
use openshell_driver_lxd.Lxd.Quiet.{logged}
use openshell_driver_lxd.Lxd.Client
use openshell_driver_lxd.Lxd.Acls.{to_json, ensure_network_acl, create_acl}
use openshell_driver_lxd.Lxd.Acls.Ensured.{Ensures, ensure_network_acl-Ensures}
use openshell_driver_lxd.Lxd.Volumes.{
  Entry, ensure_single_file_volume, create_from, ensure_storage_pool_volume_shifted, shift_volume,
  ensure_supervisor_volume, ensure_dhcp_client_volume,
}
use openshell_driver_lxd.Errors.{DriverError}
use openshell_driver_lxd.Config.{Config, gateway_scheme, guest_tls}
use openshell_driver_lxd.Common.Decimal.{show, show_onto}
use openshell_driver_lxd.Lxd.Client.Quiet.{through}
use openshell_driver_lxd.Mapping.Devices.{resolve}
use openshell_driver_lxd.Mapping.Config.{
  struct_get_str, is_valid_label_key, build_create_config, insert_labels, insert_resources,
  driver_config, insert_prefixed, max_processes, config_value, main_process_spec,
}
use openshell_driver_lxd.Driver.Create.{guest_config}
use openshell_driver_lxd.Egress.Rules.{SocketAddr, rules}
use openshell_driver_lxd.Driver.Checks.{
  validate_sandbox_create, validate_labels, validate_reference, check_placement,
  resolve_gateway_endpoint,
}
use openshell_driver_lxd.Driver.Scope.{writes}
use openshell_driver_lxd.Driver.Create.Provision.{
  domain, Surroundings, Provisioned, provide, ensure_egress_acl, prepare,
}
use openshell_driver_lxd.Driver.Create.Provision.Confined.{Confined, prepare-Confined}
use openshell_driver_lxd.Tests.{Toy, quoted, config, world}
use openshell_driver_lxd.Tests.Mapping.{floats, cores, json, template, spec, box}

abbrev gateway : List SocketAddr
gateway = record { ip = "10.0.0.1"; port = 8080 } ∷ record { ip = "10.0.0.2"; port = 8080 } ∷ []

ensure_network_acl-Ensures_example :
    Ensures Toy "acl"
      (map to_json (rules [] gateway))
      (logged writes (world none))
      (Toy.answer (get_network_acl "acl") none).0
      (Toy.answer (create_network_acl "acl" (map to_json (rules [] gateway))) none).0
      (ensure_network_acl Toy "acl" (rules [] gateway) (world none))
ensure_network_acl-Ensures_example =
    ensure_network_acl-Ensures Toy "acl" (rules [] gateway) (world none)

abbrev tarball : List Entry → Result LxdError (List ℕ)
tarball entries = ok (1 ∷ 2 ∷ [])

-- An OVN network with an address of its own.
abbrev ovn : Network
ovn = record { name = "ovn0"; type_ = "ovn"; config = ("ipv4.address", "10.0.0.1/24") ∷ [] }

abbrev ovn_answer : (r : Request) → Toy.State → Result LxdError (Response r) × Toy.State
ovn_answer (get_network name) s = (ok ovn, s)
ovn_answer r s = Toy.answer r s

abbrev Ovn : Lxd
Ovn = record Toy { answer = ovn_answer; read_file = λ path s. (ok (3 ∷ []), s) }

abbrev ovn_world : World Ovn
ovn_world = record { state = none; calls = []; locks = [] }

abbrev surroundings : Surroundings Ovn
surroundings = record {
  parse_url = λ text. ok (record { host = some (domain "gateway"); port = some 8080 });
  lookup_host = λ host port. ok gateway;
  tarball = tarball;
  bytes = λ text. [];
  supervisor = λ w. (ok ("/supervisor", "0123456789abcdef"), w);
  image_alias = λ reference w. (ok "oci-r3-d", w);
  dhcp_client = λ w. (ok (4 ∷ [], "0123456789abcdef"), w);
  dhcp_client_script = 5 ∷ [];
}

abbrev reachable : Config
reachable = record config { gateway_endpoint = some "http://gateway:8080" }

abbrev matches : String → Bool
matches s = true

abbrev prepared : Result DriverError Provisioned
prepared = (prepare quoted matches floats cores json reachable Ovn surroundings box ovn_world).0

abbrev nothing : Provisioned
nothing = record { image_alias = ""; config = []; devices = []; profiles = []; guest_files = [] }

abbrev provisioned : Result DriverError Provisioned → Provisioned
provisioned (ok p) = p
provisioned (err e) = nothing

prepared-ok : prepared ≡ ok (provisioned prepared)
unfolding prepare provide ensure_egress_acl validate_sandbox_create validate_labels
    validate_reference is_valid_label_key all_chars check_placement resolve_gateway_endpoint
    gateway_scheme guest_tls resolve struct_get_str lookup insert split_once show show_onto
    build_create_config insert_labels insert_resources driver_config insert_prefixed max_processes
    config_value main_process_spec guest_config ensure_network_acl create_acl
    ensure_supervisor_volume ensure_dhcp_client_volume ensure_single_file_volume create_from
    ensure_storage_pool_volume_shifted shift_volume through pure raise try_send send ◌>>=◌
    Client.done Client.fail Client.call Client.outcome Client.◌>>=◌
prepared-ok = refl

prepare-Confined_example :
    Confined quoted reachable Ovn surroundings
      (resolve template reachable.default_network reachable.default_storage_pool)
      ovn_world
      (provisioned prepared)
unfolding resolve struct_get_str lookup
prepare-Confined_example =
    prepare-Confined quoted matches floats cores json reachable Ovn surroundings box spec template
      ovn_world (provisioned prepared) refl refl refl prepared-ok
