-- ===== src/Driver/Checks.antt =====
-- crates/openshell-driver-lxd/src/driver.rs: what `create_sandbox` checks before it makes anything,
-- `validate_sandbox_create`, `check_placement` and `resolve_gateway_endpoint`; and
-- `validate_reference` of image.rs, where `is_match` is the match of a text against the grammar of OCI
-- references by the regex crate.
pub mod Endpoint
pub mod Accepted
use openshell_driver_lxd.Common.{
  String, ◌<>◌, List, [], ◌∷◌, Option, none, some, Bool, true, false, not, ◌==◌, nat_eq, string_eq,
  if◌then◌else◌, ℕ, ◌≡◌, refl,
}
use openshell_driver_lxd.Common.Decimal.{show}
use openshell_driver_lxd.Common.Dict.{Dict, lookup}
use openshell_driver_lxd.Common.Text.{is_empty, before_first}
use openshell_driver_lxd.Lxd.{Lxd, get_network, storage_pool_exists, is_missing}
use openshell_driver_lxd.Lxd.Types.{LxdError, Result, ok, err, Network}
use openshell_driver_lxd.Lxd.Actions.{Action, pure, raise, ◌>>=◌, try_send, send}
use openshell_driver_lxd.Errors.{DriverError, lxd, invalid_argument, failed_precondition}
use openshell_driver_lxd.Config.{Config, gateway_scheme}
use openshell_driver_lxd.Mapping.Request.{Sandbox, Spec, Template, Gpu}
use openshell_driver_lxd.Mapping.Config.{is_valid_label_key}
use openshell_driver_lxd.Mapping.Devices.{Placement}

module _ (debug : String → String) (is_match : String → Bool) where
  unfoldable pub validate_reference : String → Result DriverError (Unit {0})
  validate_reference reference =
      if is_empty reference
      then err (invalid_argument "image reference cannot be empty")
      else if not (is_match reference)
      then err (invalid_argument ("invalid OCI image reference: " <> debug reference))
      else ok tt

  -- The loop over the labels' keys.
  unfoldable pub validate_labels : Dict String → Result DriverError (Unit {0})
  validate_labels [] = ok tt
  validate_labels ((key, v) ∷ rest) =
      let more = validate_labels rest in
      if not (is_valid_label_key key)
      then err
          (invalid_argument ("invalid label key " <> (debug key <> ": must match [a-zA-Z0-9._-]+")))
      else more

  abbrev pub gpu_count : Option Gpu → Option ℕ
  gpu_count none = none
  gpu_count (some g) = g.count

  abbrev pub validate_gpu : Option ℕ → Result DriverError (Unit {0})
  validate_gpu none = ok tt
  validate_gpu (some count) =
      if count == 0
      then err (
          invalid_argument
            "sandbox.spec.resource_requirements.gpu.count must be at least 1 if set; omit it to request the default GPU assignment")
      else ok tt

  abbrev pub and_then :
      Result DriverError (Unit {0}) → Result DriverError (Unit {0}) → Result DriverError (Unit {0})
  and_then (ok _) next = next
  and_then (err e) next = err e

  abbrev pub validate_image : String → Result DriverError (Unit {0})
  validate_image image = if not (is_empty image) then validate_reference image else ok tt

  abbrev pub validate_template : Spec → Template → Result DriverError (Unit {0})
  validate_template spec template =
      and_then (validate_image template.image)
        (and_then (validate_labels template.labels) (validate_gpu (gpu_count spec.gpu)))

  abbrev pub validate_spec : Spec → Result DriverError (Unit {0})
  validate_spec spec = elim spec.template [
    | none ↦ err (invalid_argument "sandbox.spec.template is required")
    | some template ↦ validate_template spec template
  ]

  unfoldable pub validate_sandbox_create : Sandbox → Result DriverError (Unit {0})
  validate_sandbox_create sandbox =
      if is_empty sandbox.name
      then err (invalid_argument "sandbox.name is required")
      else if is_empty sandbox.id
      then err (invalid_argument "sandbox.id is required")
      else elim sandbox.spec [
        | none ↦ err (invalid_argument "sandbox.spec is required")
        | some spec ↦ validate_spec spec
      ]

module _ (debug : String → String) (c : Config) where
  -- The endpoint on the network's own address.
  abbrev pub host_endpoint : String → Option String → Result DriverError String
  host_endpoint network_name none = err (
      failed_precondition ("network " <> (debug network_name <> " has no ipv4.address configured")))
  host_endpoint network_name (some cidr) =
      ok (
        gateway_scheme c
        <> ("://" <> (before_first b'/' cidr <> (":" <> show c.gateway_grpc_port))))

  -- The endpoint where the configuration sets none.
  abbrev pub derived_endpoint : String → Network → Result DriverError String
  derived_endpoint network_name network =
      if network.type_ == "ovn"
      then err (
          failed_precondition (
            "network "
            <> (debug network_name
                <> " is an OVN network, whose address belongs to its virtual router rather than the gateway; set the driver's --gateway-endpoint to the URL sandboxes reach the gateway at")))
      else host_endpoint network_name (lookup "ipv4.address" network.config)

  abbrev pub endpoint_or : Option String → Result DriverError String → Result DriverError String
  endpoint_or none derived = derived
  endpoint_or (some endpoint) derived = ok endpoint

  unfoldable pub resolve_gateway_endpoint : String → Network → Result DriverError String
  resolve_gateway_endpoint network_name network =
      endpoint_or c.gateway_endpoint (derived_endpoint network_name network)

module _ (debug : String → String) (c : Config) (L : Lxd) where
  abbrev pub no_network : Placement → DriverError
  no_network placement = failed_precondition (
      "LXD network "
      <> (debug placement.network
          <> (" does not exist in project "
              <> (debug c.project
                  <> "; set the sandbox's driver_config.network or the driver's --default-network to an existing one"))))

  abbrev pub no_pool : Placement → DriverError
  no_pool placement = failed_precondition (
      "LXD storage pool "
      <> (debug placement.storage_pool
          <> " does not exist; set the sandbox's driver_config.storage_pool or the driver's --default-storage-pool to an existing one"))

  abbrev pub network_answer : Placement → Result LxdError Network → Action L Network
  network_answer placement (ok network) = do
    exists ← send (storage_pool_exists placement.storage_pool)
    if not exists then raise (no_pool placement) else pure network
  network_answer placement (err e) =
      if is_missing e then raise (no_network placement) else raise (lxd e)

  unfoldable pub check_placement : Placement → Action L Network
  check_placement placement = do
    r ← try_send (get_network placement.network)
    network_answer placement r
