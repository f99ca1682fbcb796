-- ===== src/Driver/Settling.antt =====
-- crates/openshell-driver-lxd/src/driver.rs: how often `start_sandbox` starts an instance.
use openshell_driver_lxd.Common.{
  refl, ℕ, zero, suc, String, List, [], ◌∷◌, none, Bool, true, false, ◌==◌, string_eq, arith,
  length, ◌+◌, ◌≤◌,
}
use openshell_driver_lxd.Lxd.{Lxd, Request}
use openshell_driver_lxd.Lxd.{
  get_instance, start_instance, patch_instance_config, push_file_into_instance,
}
use openshell_driver_lxd.Lxd.Types.{LxdError, Result, ok, err, Instance}
use openshell_driver_lxd.Lxd.Actions.{Action, World, pure, try_send}
use openshell_driver_lxd.Lxd.Quiet.{Quiet, logged, quiet_rules, Quiet-bind, Quiet-send, Quiet-pure}
use openshell_driver_lxd.Config.{Config}
use openshell_driver_lxd.Driver.{get_managed_instance, start_and_wait}
use openshell_driver_lxd.Driver.Start.{
  settle_answer, settle, settle_after_start, read_guest_tls_files, push_guest_files, start_stopped,
  start_found, start_sandbox,
}
use openshell_driver_lxd.Lxd.Actions.{send, take_lock, sleep, try_send}
use openshell_driver_lxd.Lxd.AtMost.{AtMost, AtMost-Quiet, AtMost-if, AtMost-bind, AtMost-send}
use openshell_driver_lxd.Driver.Start.{needs_restart, id_or_default}
use openshell_driver_lxd.Driver.{settle_delay}
use openshell_driver_lxd.Mapping.{key_stop_intent}
use openshell_driver_lxd.Driver.Scope.{
  read_guest_tls_files-Quiet, await_operation-Quiet, get_managed_instance-Quiet,
}

abbrev pub is_start : Request → Bool
is_start (start_instance name) = true
is_start _ = false

module _ (debug : String → String) (c : Config) (L : Lxd) (name : String) where
  start_and_wait-AtMost : AtMost is_start 1 (start_and_wait debug c L name)
  start_and_wait-AtMost =
      AtMost-bind 1 0 1 (send (start_instance name)) _ (omega arith)
        (AtMost-send (start_instance name))
        (λ op. AtMost-Quiet 0 _ (await_operation-Quiet debug c L is_start (λ _ _. refl) op.id))

  settle_answer-AtMost :
      (n : ℕ) (expected : String) (again : Action L (Unit {0})) (r : Result LxdError Instance)
      → AtMost is_start n again
      → AtMost is_start n (settle_answer debug c L expected again r)
  settle_answer-AtMost n expected again (ok i) q =
      AtMost-if (needs_restart expected i) n again (pure tt) q
        (AtMost-Quiet n (pure tt) (Quiet-pure tt))
  settle_answer-AtMost n expected again (err e) q = AtMost-Quiet n _ (search quiet_rules)

  settle-AtMost : (n : ℕ) (expected : String) → AtMost is_start n (settle debug c L n name expected)
  unfolding settle
  settle-AtMost zero expected = AtMost-Quiet 0 _ (Quiet-pure tt)
  settle-AtMost (suc n) expected =
      AtMost-bind 0 (suc n) (suc n) (sleep settle_delay) _ (omega arith)
        (AtMost-Quiet 0 _ (search quiet_rules))
        (λ _.
          AtMost-bind 0 (suc n) (suc n) (try_send (get_instance name)) _ (omega arith)
            (AtMost-Quiet 0 _ (search quiet_rules))
            λ r. settle_answer-AtMost (suc n) expected _ r (
              AtMost-bind 1 n (suc n) (start_and_wait debug c L name) _ (omega arith)
                start_and_wait-AtMost (λ _. settle-AtMost n expected)))

  push_guest_files-Quiet :
      (files : List (String × List ℕ)) → Quiet is_start (push_guest_files debug c L name files)
  unfolding push_guest_files
  push_guest_files-Quiet [] = search quiet_rules
  push_guest_files-Quiet ((guest_path, content) ∷ files) =
      Quiet-bind (send (push_file_into_instance name guest_path content)) _
        (Quiet-send {p = is_start} (push_file_into_instance name guest_path content) refl)
        (λ _. push_guest_files-Quiet files)

  start_stopped-AtMost :
      (id : String) → AtMost is_start (c.start_retries + 1) (start_stopped debug c L name id)
  unfolding start_stopped settle_after_start
  start_stopped-AtMost id =
      let all = c.start_retries + 1 in
      AtMost-bind 0 all all (read_guest_tls_files debug c L) _ (omega arith)
        (AtMost-Quiet 0 _ (read_guest_tls_files-Quiet debug c L is_start))
        λ files.
          AtMost-bind 0 all all (push_guest_files debug c L name files) _ (omega arith)
            (AtMost-Quiet 0 _ (push_guest_files-Quiet files))
            λ _.
              AtMost-bind 0 all all
                (send (patch_instance_config name ((key_stop_intent, none) ∷ []))) _ (omega arith)
                (AtMost-Quiet 0 _ (search quiet_rules))
                λ _.
                  AtMost-bind 1 c.start_retries all (start_and_wait debug c L name) _ (omega arith)
                    start_and_wait-AtMost
                    λ _.
                      AtMost-bind 0 c.start_retries c.start_retries (take_lock name) _ (omega arith)
                        (AtMost-Quiet 0 _ (search quiet_rules))
                        λ _. settle-AtMost c.start_retries id

  start_found-AtMost :
      (i : Instance) → AtMost is_start (c.start_retries + 1) (start_found debug c L name i)
  start_found-AtMost i =
      AtMost-if (i.status == "Stopped") _ _ _ (start_stopped-AtMost (id_or_default i))
        (AtMost-Quiet _ _ (search quiet_rules))

  start_sandbox-AtMost : AtMost is_start (c.start_retries + 1) (start_sandbox debug c L name)
  unfolding start_sandbox
  start_sandbox-AtMost =
      AtMost-bind 0 (c.start_retries + 1) (c.start_retries + 1)
        (get_managed_instance debug c L name) _ (omega arith)
        (AtMost-Quiet 0 _ (get_managed_instance-Quiet debug c L is_start (λ _. refl) name))
        start_found-AtMost

-- Whatever LXD answers, starting a sandbox asks LXD at most `start_retries` times to start it again
-- after the first time.
pub start_sandbox-starts :
    (debug : String → String) (c : Config) (L : Lxd) (name : String) (w : World L)
    → length (logged is_start (start_sandbox debug c L name w).1)
      ≤ c.start_retries + 1 + length (logged is_start w)
start_sandbox-starts debug c L name w = (start_sandbox-AtMost debug c L name).at w
