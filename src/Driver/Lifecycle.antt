-- ===== src/Driver/Lifecycle.antt =====
-- crates/openshell-driver-lxd/src/driver.rs: what start, stop and delete may touch.
use openshell_driver_lxd.Common.{
  ◌≡◌, refl, ℕ, zero, suc, String, List, [], ◌∷◌, none, true, string_eq,
}
use openshell_driver_lxd.Common.Dict.{lookup}
use openshell_driver_lxd.Lxd.{Lxd}
use openshell_driver_lxd.Lxd.{is_missing, stop_instance, push_file_into_instance}
use openshell_driver_lxd.Lxd.Types.{LxdError, Result, ok, err, Instance, Operation}
use openshell_driver_lxd.Lxd.Actions.{send, raise, World, Action, pure, try_send, ◌>>=◌}
use openshell_driver_lxd.Lxd.Quiet.{
  Quiet, logged, quiet_rules, Quiet-bind, Quiet-send, Quiet-pure, Quiet-raise, Quiet-if,
  Quiet-option,
}
use openshell_driver_lxd.Errors.{DriverError, lxd}
use openshell_driver_lxd.Config.{Config, pos}
use openshell_driver_lxd.Mapping.{key_sandbox_id}
use openshell_driver_lxd.Driver.{
  await_operation, get_managed_instance, set_stop_intent, clear_stop_intent, start_and_wait,
}
use openshell_driver_lxd.Driver.Start.{
  needs_restart, settle_answer, settle, settle_after_start, push_guest_files, start_stopped,
  start_found, start_sandbox,
}
use openshell_driver_lxd.Driver.Stop.{
  forced_wait, forced_answer, force_stop, graceful_stop, after_graceful, stop_found, stop_sandbox,
}
use openshell_driver_lxd.Driver.Delete.{
  deleted, delete_stopped, after_wait, after_stop, delete_found, delete_sandbox,
}
use openshell_driver_lxd.Driver.Scope.{
  read_guest_tls_files-Quiet, strays, same_name, await_operation-Quiet, get_managed_instance-Quiet,
}

module _ (debug : String → String) (c : Config) (L : Lxd) (name : String) where
  pub await-Quiet : (id : String) → Quiet (strays name) (await_operation debug c L id)
  await-Quiet id = await_operation-Quiet debug c L (strays name) (λ _ _. refl) id

  get-Quiet : Quiet (strays name) (get_managed_instance debug c L name)
  get-Quiet = get_managed_instance-Quiet debug c L (strays name) (λ _. refl) name

  set-Quiet : Quiet (strays name) (set_stop_intent debug c L name)
  unfolding set_stop_intent
  set-Quiet = search (quiet_rules, same_name)

  clear-Quiet : Quiet (strays name) (clear_stop_intent debug c L name)
  unfolding clear_stop_intent
  clear-Quiet = search (quiet_rules, same_name)

  forced_wait-Quiet :
      (r : Result DriverError (Unit {0})) → Quiet (strays name) (forced_wait debug c L name r)
  forced_wait-Quiet (ok _) = search quiet_rules
  forced_wait-Quiet (err e) = search (quiet_rules, clear-Quiet)

  forced_answer-Quiet :
      (r : Result LxdError Operation) → Quiet (strays name) (forced_answer debug c L name r)
  forced_answer-Quiet (ok op) = search (quiet_rules, await-Quiet, forced_wait-Quiet)
  forced_answer-Quiet (err e) = search (quiet_rules, clear-Quiet)

  force_stop-Quiet : Quiet (strays name) (force_stop debug c L name)
  unfolding force_stop
  force_stop-Quiet = search (quiet_rules, same_name, forced_answer-Quiet)

  graceful_stop-Quiet : Quiet (strays name) (graceful_stop debug c L name)
  unfolding graceful_stop
  graceful_stop-Quiet = search (quiet_rules, same_name, await-Quiet)

  after_graceful-Quiet :
      (r : Result DriverError (Unit {0})) → Quiet (strays name) (after_graceful debug c L name r)
  after_graceful-Quiet (ok _) = search quiet_rules
  after_graceful-Quiet (err e) = search (quiet_rules, force_stop-Quiet)

  stop_found-Quiet : (i : Instance) → Quiet (strays name) (stop_found debug c L name i)
  stop_found-Quiet i = search (quiet_rules, set-Quiet, graceful_stop-Quiet, after_graceful-Quiet)

  stop_sandbox-Quiet : Quiet (strays name) (stop_sandbox debug c L name)
  unfolding stop_sandbox
  stop_sandbox-Quiet = search (quiet_rules, get-Quiet, stop_found-Quiet)

  deleted-Quiet :
      (id : String) (r : Result LxdError Operation)
      → Quiet (strays name) (deleted debug c L name id r)
  deleted-Quiet id (ok op) = search (quiet_rules, await-Quiet)
  deleted-Quiet id (err e) = search quiet_rules

  delete_stopped-Quiet : (id : String) → Quiet (strays name) (delete_stopped debug c L name id)
  unfolding delete_stopped
  delete_stopped-Quiet id = search (quiet_rules, same_name, deleted-Quiet id)

  after_wait-Quiet :
      (id : String) (r : Result DriverError (Unit {0}))
      → Quiet (strays name) (after_wait debug c L name id r)
  after_wait-Quiet id (ok _) = delete_stopped-Quiet id
  after_wait-Quiet id (err e) = search (quiet_rules, delete_stopped-Quiet)

  after_stop-Quiet :
      (id : String) (r : Result LxdError Operation)
      → Quiet (strays name) (after_stop debug c L name id r)
  after_stop-Quiet id (ok op) = search (quiet_rules, await-Quiet, after_wait-Quiet)
  after_stop-Quiet id (err e) = search (quiet_rules, delete_stopped-Quiet)

  delete_found-Quiet :
      (r : Result LxdError Instance) → Quiet (strays name) (delete_found debug c L name r)
  delete_found-Quiet (ok i) =
      Quiet-option (lookup key_sandbox_id i.config) (pure none)
        (λ id. try_send (stop_instance name true (pos 0)) >>= λ r. after_stop debug c L name id r)
        (search quiet_rules) (λ id. search (quiet_rules, same_name, after_stop-Quiet id))
  delete_found-Quiet (err e) = search quiet_rules

  delete_sandbox-Quiet : Quiet (strays name) (delete_sandbox debug c L name)
  unfolding delete_sandbox
  delete_sandbox-Quiet = search (quiet_rules, delete_found-Quiet)

  pub start_and_wait-Quiet : Quiet (strays name) (start_and_wait debug c L name)
  start_and_wait-Quiet = search (quiet_rules, same_name, await-Quiet)

  settle_answer-Quiet :
      (expected : String) (again : Action L (Unit {0})) (r : Result LxdError Instance)
      → Quiet (strays name) again
      → Quiet (strays name) (settle_answer debug c L expected again r)
  settle_answer-Quiet expected again (ok i) q =
      Quiet-if (needs_restart expected i) again (pure tt) q (Quiet-pure tt)
  settle_answer-Quiet expected again (err e) q =
      Quiet-if (is_missing e) (pure tt) (raise (lxd e)) (Quiet-pure tt) (Quiet-raise (lxd e))

  pub settle-Quiet :
      (n : ℕ) (expected : String) → Quiet (strays name) (settle debug c L n name expected)
  unfolding settle
  settle-Quiet zero expected = search quiet_rules
  settle-Quiet (suc n) expected =
      search (quiet_rules, start_and_wait-Quiet, settle-Quiet n, settle_answer-Quiet)

  pub push_guest_files-Quiet :
      (files : List (String × List ℕ)) → Quiet (strays name) (push_guest_files debug c L name files)
  unfolding push_guest_files
  push_guest_files-Quiet [] = search quiet_rules
  push_guest_files-Quiet ((guest_path, content) ∷ files) =
      Quiet-bind (send (push_file_into_instance name guest_path content)) _
        (Quiet-send {p = strays name} (push_file_into_instance name guest_path content)
          (same_name name))
        (λ _. push_guest_files-Quiet files)

  start_stopped-Quiet : (id : String) → Quiet (strays name) (start_stopped debug c L name id)
  unfolding start_stopped settle_after_start
  start_stopped-Quiet id =
      search
        (
          quiet_rules, same_name, read_guest_tls_files-Quiet, push_guest_files-Quiet,
          start_and_wait-Quiet, settle-Quiet,
        )
        depth 8

  start_found-Quiet : (i : Instance) → Quiet (strays name) (start_found debug c L name i)
  start_found-Quiet i = search (quiet_rules, start_stopped-Quiet)

  start_sandbox-Quiet : Quiet (strays name) (start_sandbox debug c L name)
  unfolding start_sandbox
  start_sandbox-Quiet = search (quiet_rules, get-Quiet, start_found-Quiet)

-- Whatever LXD answers, starting, stopping and deleting a sandbox make no call that changes
-- anything in LXD but its own instance.
pub lifecycle-stays_with_its_instance :
    (debug : String → String) (c : Config) (L : Lxd) (name : String) (w : World L)
    → (logged (strays name) (start_sandbox debug c L name w).1 ≡ logged (strays name) w)
      × (logged (strays name) (stop_sandbox debug c L name w).1 ≡ logged (strays name) w)
      × (logged (strays name) (delete_sandbox debug c L name w).1 ≡ logged (strays name) w)
lifecycle-stays_with_its_instance debug c L name w = (
  (start_sandbox-Quiet debug c L name).at w,
  (stop_sandbox-Quiet debug c L name).at w,
  (delete_sandbox-Quiet debug c L name).at w,
)
