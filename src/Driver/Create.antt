-- ===== src/Driver/Create.antt =====
-- crates/openshell-driver-lxd/src/driver.rs: the end of `create_sandbox`, from the request that creates
-- the instance on, with the clean-up where a later step fails; and what it adds to the configuration
-- of the instance.
pub mod Cleanup
pub mod Extent
pub mod Provision
use openshell_driver_lxd.Common.{
  ℕ, String, List, [], ◌∷◌, Option, none, some, Bool, true, false, if◌then◌else◌,
}
use openshell_driver_lxd.Common.Dict.{Dict, insert}
use openshell_driver_lxd.Lxd.{Lxd, create_instance, start_instance, stop_instance, delete_instance}
use openshell_driver_lxd.Lxd.Types.{LxdError, Result, ok, err, Operation}
use openshell_driver_lxd.Lxd.Actions.{Action, pure, raise, attempt, ◌>>=◌, ◌>>◌, try_send, send}
use openshell_driver_lxd.Errors.{DriverError}
use openshell_driver_lxd.Config.{Config, pos, guest_tls, is_some}
use openshell_driver_lxd.Mapping.Config.{insert_guest_tls_environment}
use openshell_driver_lxd.Driver.{await_operation, start_and_wait}
use openshell_driver_lxd.Driver.Start.{settle_after_start, push_guest_files}

abbrev pub with_server_name : Option String → Dict String → Dict String
with_server_name none config = config
with_server_name (some name) config =
    insert "environment.OPENSHELL_GATEWAY_TLS_SERVER_NAME" name config

-- What `create_sandbox` adds to the configuration that `build_create_config` makes.
unfoldable pub guest_config : Config → Dict String → Dict String
guest_config c config =
    let connected =
      if is_some (guest_tls c)
      then with_server_name c.gateway_tls_server_name (insert_guest_tls_environment config)
      else config in
    if c.sandbox_nesting then insert "security.nesting" "true" connected else connected

module _ (debug : String → String) (c : Config) (L : Lxd) where
  abbrev pub stop_answer : Result LxdError Operation → Action L (Unit {0})
  stop_answer (ok op) = attempt (await_operation debug c L op.id) >> pure tt
  stop_answer (err e) = pure tt

  unfoldable pub cleanup : String → Action L (Unit {0})
  cleanup name = do
    r ← try_send (stop_instance name true (pos 0))
    stop_answer r
    op ← send (delete_instance name)
    await_operation debug c L op.id

  unfoldable pub post_create : String → String → List (String × List ℕ) → Action L (Unit {0})
  post_create name sandbox_id guest_files = do
    push_guest_files debug c L name guest_files
    start_and_wait debug c L name
    settle_after_start debug c L name sandbox_id

  abbrev pub after_post_create : String → Result DriverError (Unit {0}) → Action L (Unit {0})
  after_post_create name (ok _) = pure tt
  after_post_create name (err e) = attempt (cleanup name) >> raise e

  -- From a created instance to a running sandbox.
  unfoldable pub launch : String → String → List (String × List ℕ) → Action L (Unit {0})
  launch name sandbox_id guest_files = do
    r ← attempt (post_create name sandbox_id guest_files)
    after_post_create name r

  -- `create_sandbox` from `create_instance` on.
  unfoldable pub create_and_launch :
      (name sandbox_id image_alias : String)
      → Dict String
      → Dict (Dict String)
      → List String
      → List (String × List ℕ)
      → Action L (Unit {0})
  create_and_launch name sandbox_id image_alias config devices profiles guest_files = do
    op ← send (create_instance name image_alias config devices profiles false)
    await_operation debug c L op.id
    launch name sandbox_id guest_files
