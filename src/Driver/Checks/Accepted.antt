-- ===== src/Driver/Checks/Accepted.antt =====
-- crates/openshell-driver-lxd/src/driver.rs and mapping.rs: accepted requests and placements.
use openshell_driver_lxd.Common.{
  String, ◌<>◌, ◌≡◌, refl, ap, arith, [], ◌∷◌, some, Bool, true, false, not, string_eq,
  if◌then◌else◌, Bool-cases, inl, inr,
}
use openshell_driver_lxd.Common.Dict.{Dict, insert}
use openshell_driver_lxd.Lxd.Resources.{Cores}
use openshell_driver_lxd.Lxd.Types.{LxdError, Result, ok, err, Network}
use openshell_driver_lxd.Lxd.{Lxd, get_network, storage_pool_exists}
use openshell_driver_lxd.Lxd.Actions.{World, continue, pure, raise, send, try_send, ◌>>=◌}
use openshell_driver_lxd.Config.{Config}
use openshell_driver_lxd.Mapping.Devices.{Placement}
use openshell_driver_lxd.Driver.Checks.{no_pool, network_answer, check_placement}
use openshell_driver_lxd.Errors.{DriverError, from_lxd, ok-injective}
use openshell_driver_lxd.Mapping.Request.{Sandbox, Spec, Template, Floats}
use openshell_driver_lxd.Mapping.Config.{
  MainProcess, is_valid_label_key, insert_labels, label_prefix,
}
use openshell_driver_lxd.Driver.Checks.{
  validate_sandbox_create, validate_spec, validate_template, validate_labels, validate_image,
  and_then,
}

module _ (debug : String → String) (is_match : String → Bool) (F : Floats) (C : Cores)
    (json : MainProcess → String) where
  labels-insert_labels :
      (labels config : Dict String)
      → validate_labels debug is_match labels ≡ ok tt
      → (labelled : Dict String) × (insert_labels debug F C json labels config ≡ ok labelled)
  unfolding validate_labels insert_labels
  labels-insert_labels [] config h = (config, refl)
  labels-insert_labels ((key, v) ∷ rest) config h = elim (Bool-cases (is_valid_label_key key)) [
    | inl valid ↦
        let (labelled, e) =
          labels-insert_labels rest (insert (label_prefix <> key) v config)
            (ground (arith, h, valid)) in
        (labelled, rw valid e)
    | inr invalid ↦ absurd (ground (arith, h, invalid))
  ]

  both-ok :
      (a b : Result DriverError (Unit {0}))
      → and_then debug is_match a b ≡ ok tt
      → (a ≡ ok tt) × (b ≡ ok tt)
  both-ok (ok _) b h = (refl, h)
  both-ok (err e) b h = absurd (ground (arith, h))

  sandbox-spec :
      (sandbox : Sandbox) (spec : Spec)
      → validate_sandbox_create debug is_match sandbox ≡ ok tt
      → sandbox.spec ≡ some spec
      → validate_spec debug is_match spec ≡ ok tt
  unfolding validate_sandbox_create
  sandbox-spec sandbox spec h s = ground (arith, h, s)

  spec-template :
      (spec : Spec) (t : Template)
      → validate_spec debug is_match spec ≡ ok tt
      → spec.template ≡ some t
      → validate_template debug is_match spec t ≡ ok tt
  spec-template spec t h e = ground (arith, h, e)

  template-labels :
      (spec : Spec) (t : Template)
      → validate_template debug is_match spec t ≡ ok tt
      → validate_labels debug is_match t.labels ≡ ok tt
  template-labels spec t h = (both-ok _ _ (both-ok (validate_image debug is_match t.image) _ h).1).0

-- The labels of a request that `validate_sandbox_create` accepts are all accepted by
-- `build_create_config` too, whatever configuration they are inserted into.
pub validate_sandbox_create-insert_labels :
    (debug : String → String) (is_match : String → Bool) (F : Floats) (C : Cores)
    (json : MainProcess → String) (sandbox : Sandbox) (spec : Spec) (template : Template)
    (config : Dict String)
    → validate_sandbox_create debug is_match sandbox ≡ ok tt
    → sandbox.spec ≡ some spec
    → spec.template ≡ some template
    → (labelled : Dict String) × (insert_labels debug F C json template.labels config ≡ ok labelled)
validate_sandbox_create-insert_labels debug is_match F C json sandbox spec template config h s t =
    labels-insert_labels debug is_match F C json template.labels config (
      template-labels debug is_match F C json spec template (
        spec-template debug is_match F C json spec template
          (sandbox-spec debug is_match F C json sandbox spec h s) t))

module _ (debug : String → String) (c : Config) (L : Lxd) (placement : Placement) where
  pool-ok :
      (a : Result LxdError Bool) (here network : Network) (w : World L)
      → (continue
          (from_lxd a)
          (λ exists. if not exists then raise (no_pool debug c L placement) else pure here)
          w).0
        ≡ ok network
      → (a ≡ ok true) × (here ≡ network)
  unfolding pure raise
  pool-ok (ok true) here network w h = (refl, ok-injective here network h)
  pool-ok (ok false) here network w h = absurd (ground (arith, h))
  pool-ok (err e) here network w h = absurd (ground (arith, h))

  network_answer-ok :
      (r : Result LxdError Network) (network : Network) (w : World L)
      → (network_answer debug c L placement r w).0 ≡ ok network
      → (r ≡ ok network)
        × ((L.answer (storage_pool_exists placement.storage_pool) w.state).0 ≡ ok true)
  unfolding pure raise send ◌>>=◌
  network_answer-ok (ok here) network w h =
      let (found, same) =
        pool-ok (L.answer (storage_pool_exists placement.storage_pool) w.state).0 here network _
          h in
      (ap ok same, found)
  network_answer-ok (err e) network w h = absurd (ground (arith, h))

-- What `check_placement` lets pass: LXD answered with that network, and right after that the storage
-- pool exists.
pub check_placement-ok :
    (debug : String → String) (c : Config) (L : Lxd) (placement : Placement) (w : World L)
    (network : Network)
    → (check_placement debug c L placement w).0 ≡ ok network
    → let r = L.answer (get_network placement.network) w.state in
      (r.0 ≡ ok network) × ((L.answer (storage_pool_exists placement.storage_pool) r.1).0 ≡ ok true)
unfolding check_placement try_send ◌>>=◌
check_placement-ok debug c L placement w network h =
    network_answer-ok debug c L placement (L.answer (get_network placement.network) w.state).0
      network _ h
