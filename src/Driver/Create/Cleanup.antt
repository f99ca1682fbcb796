-- ===== src/Driver/Create/Cleanup.antt =====
-- crates/openshell-driver-lxd/src/driver.rs, `create_sandbox`: the clean-up after a failed launch.
use openshell_driver_lxd.Common.{ℕ, String, List, ◌∷◌, ◌≡◌, refl, ap, ◌∙◌, true, ◌⊎◌, inl, inr}
use openshell_driver_lxd.Lxd.{Lxd, Request, stop_instance, delete_instance}
use openshell_driver_lxd.Lxd.Types.{LxdError, Result, ok, err, Operation}
use openshell_driver_lxd.Lxd.Actions.{
  World, Action, continue, pure, raise, attempt, ◌>>=◌, try_send, send,
}
use openshell_driver_lxd.Lxd.Quiet.{Quiet, logged, quiet_rules}
use openshell_driver_lxd.Errors.{DriverError, from_lxd}
use openshell_driver_lxd.Config.{Config, pos}
use openshell_driver_lxd.Driver.{await_operation}
use openshell_driver_lxd.Driver.Scope.{writes, await_operation-Quiet}
use openshell_driver_lxd.Driver.Create.{
  stop_answer, cleanup, post_create, after_post_create, launch,
}

module _ (debug : String → String) (c : Config) (L : Lxd) (name : String) where
  await-Quiet : (id : String) → Quiet writes (await_operation debug c L id)
  await-Quiet id = await_operation-Quiet debug c L writes (λ _ _. refl) id

  stop_answer-Quiet : (r : Result LxdError Operation) → Quiet writes (stop_answer debug c L r)
  stop_answer-Quiet (ok op) = search (quiet_rules, await-Quiet)
  stop_answer-Quiet (err e) = search quiet_rules

  stop_answer-ok :
      (r : Result LxdError Operation) (w : World L) → (stop_answer debug c L r w).0 ≡ ok tt
  unfolding pure attempt ◌>>=◌
  stop_answer-ok (ok op) w = refl
  stop_answer-ok (err e) w = refl

  deletion-wait :
      (r : Result LxdError Operation) (w : World L)
      → logged writes (continue (from_lxd r) (λ op. await_operation debug c L op.id) w).1
        ≡ logged writes w
  deletion-wait (ok op) w = (await-Quiet op.id).at w
  deletion-wait (err e) w = refl

  abbrev deletion : Action L (Unit {0})
  deletion = send (delete_instance name) >>= λ op. await_operation debug c L op.id

  deletion-writes :
      (w : World L) → logged writes (deletion w).1 ≡ delete_instance name ∷ logged writes w
  unfolding send ◌>>=◌
  deletion-writes w = deletion-wait (L.answer (delete_instance name) w.state).0 _

  -- The two changes of the clean-up, on top of the calls before it.
  cleanup-writes :
      (w : World L)
      → logged writes (cleanup debug c L name w).1
        ≡ delete_instance name ∷ stop_instance name true (pos 0) ∷ logged writes w
  unfolding cleanup try_send send ◌>>=◌
  cleanup-writes w =
      let (answer, state) = L.answer (stop_instance name true (pos 0)) w.state in
      let sent = record w { state = state; calls = stop_instance name true (pos 0) ∷ w.calls } in
      let (r, v) = stop_answer debug c L answer sent in
      ap (λ x. logged writes (continue x (λ _. deletion) v).1) (stop_answer-ok answer sent)
      ∙ (deletion-writes v
          ∙ ap (λ cs. delete_instance name ∷ cs) ((stop_answer-Quiet answer).at sent))

  -- How the launch ends: well, or with a failure after the clean-up.
  abbrev pub Launches : Result DriverError (Unit {0}) × World L → Type 0
  Launches x =
      (x.0 ≡ ok tt)
      ⊎ ((e : DriverError) × (before : List Request) × (x.0 ≡ err e)
          × (logged writes x.1 ≡ delete_instance name ∷ stop_instance name true (pos 0) ∷ before))

  after_post_create-Launches :
      (r : Result DriverError (Unit {0})) (w : World L)
      → Launches (after_post_create debug c L name r w)
  unfolding pure raise attempt ◌>>=◌
  after_post_create-Launches (ok _) w = inl refl
  after_post_create-Launches (err e) w = inr (e, logged writes w, refl, cleanup-writes w)

-- Whatever LXD answers once an instance is created: the launch succeeds, or it fails and, as
-- its last two changes, has asked LXD to stop and to delete the instance.
pub launch-cleans_up :
    (debug : String → String) (c : Config) (L : Lxd) (name sandbox_id : String)
    (guest_files : List (String × List ℕ)) (w : World L)
    → Launches debug c L name (launch debug c L name sandbox_id guest_files w)
unfolding launch attempt ◌>>=◌
launch-cleans_up debug c L name sandbox_id guest_files w =
    let (r, v) = post_create debug c L name sandbox_id guest_files w in
    after_post_create-Launches debug c L name r v
