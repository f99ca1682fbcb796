-- ===== src/Driver/StopTrace.antt =====
-- crates/openshell-driver-lxd/src/driver.rs: the calls by which `stop_sandbox` changes an instance.
use openshell_driver_lxd.Common.{
  subst, sym, ◌≡◌, refl, String, List, [], ◌∷◌, none, some, Bool, true, false, string_eq, ap, arith,
  ◌∙◌,
}
use openshell_driver_lxd.Lxd.{Lxd, Request}
use openshell_driver_lxd.Lxd.{get_instance, stop_instance, patch_instance_config}
use openshell_driver_lxd.Lxd.Types.{LxdError, Result, ok, err, Instance, Operation}
use openshell_driver_lxd.Lxd.Actions.{
  send, ◌>>◌, take_lock, attempt, continue, raise, Action, World, pure, try_send, ◌>>=◌,
}
use openshell_driver_lxd.Lxd.Quiet.{logged}
use openshell_driver_lxd.Errors.{DriverError, lxd}
use openshell_driver_lxd.Config.{Config, pos}
use openshell_driver_lxd.Driver.{
  managed, await_operation, get_managed_instance, set_stop_intent, clear_stop_intent,
}
use openshell_driver_lxd.Driver.Stop.{
  forced_wait, forced_answer, force_stop, graceful_stop, after_graceful, stop_found, stop_sandbox,
}
use openshell_driver_lxd.Driver.{is_managed, is_already_stopped, means_stopped}
use openshell_driver_lxd.Driver.Scope.{writes, await_operation-Quiet}
use openshell_driver_lxd.Mapping.{key_stop_intent, condition_stopped}
use openshell_driver_lxd.Common.Text.{eq_ignore_ascii_case}
use openshell_driver_lxd.Common.{if◌then◌else◌}
use openshell_driver_lxd.Errors.{from_lxd}

module _ (debug : String → String) (c : Config) (L : Lxd) (name : String) where
  -- The calls: the stop marker set and cleared, and the two stops.
  abbrev pub mark : Request
  mark = patch_instance_config name ((key_stop_intent, some condition_stopped) ∷ [])

  abbrev pub unmark : Request
  unmark = patch_instance_config name ((key_stop_intent, none) ∷ [])

  abbrev pub forced_stop : Request
  forced_stop = stop_instance name true (pos 0)

  abbrev pub asked_stop : Request
  asked_stop = stop_instance name false c.stop_timeout_secs

  -- The graceful and the forced stop, with the wait for each.
  abbrev pub asked : World L → Result DriverError (Unit {0}) × World L
  asked = send asked_stop >>= λ op. await_operation debug c L op.id

  abbrev pub forced : World L → Result DriverError (Unit {0}) × World L
  forced = send forced_stop >>= λ op. await_operation debug c L op.id

  -- The instance has stopped, by the answer to one of them.
  abbrev pub has_stopped : Result DriverError (Unit {0}) → Bool
  has_stopped (ok _) = true
  has_stopped (err e) = means_stopped e

  -- How a stop ends after the forced one with the result `r`, by whether the instance has stopped, on top
  -- of the changes `b`.
  abbrev pub Ends :
      Bool
      → Result DriverError (Unit {0})
      → Result DriverError (Unit {0}) × World L
      → List Request
      → Type 0
  Ends true r x b = (x.0 ≡ ok tt) × (logged writes x.1 ≡ b)
  Ends false r x b = (x.0 ≡ r) × (logged writes x.1 ≡ unmark ∷ b)

  await-writes :
      (id : String) (w : World L)
      → logged writes (await_operation debug c L id w).1 ≡ logged writes w
  await-writes id w = (await_operation-Quiet debug c L writes (λ _ _. refl) id).at w

  -- The end after an error, on top of the calls `b`.
  error-Ends :
      (stopped : Bool) (e : DriverError) (w : World L) (b : List Request)
      → logged writes w ≡ b
      → Ends stopped
          (err e)
          ((if stopped then pure tt else (clear_stop_intent debug c L name >> raise e)) w)
          b
  unfolding raise pure clear_stop_intent try_send ◌>>=◌
  error-Ends true e w b h = (refl, h)
  error-Ends false e w b h = (refl, ap (λ cs. unmark ∷ cs) h)

  forced_wait-Ends :
      (r : Result DriverError (Unit {0})) (w : World L) (b : List Request)
      → logged writes w ≡ b
      → Ends (has_stopped r) r (forced_wait debug c L name r w) b
  unfolding pure
  forced_wait-Ends (ok _) w b h = (refl, h)
  forced_wait-Ends (err e) w b h = error-Ends (means_stopped e) e w b h

  forced_answer-Ends :
      (r : Result LxdError Operation) (w : World L) (b : List Request)
      → logged writes w ≡ b
      → let done = (continue (from_lxd r) (λ op. await_operation debug c L op.id) w).0 in
        Ends (has_stopped done) done (forced_answer debug c L name r w) b
  unfolding attempt ◌>>=◌
  forced_answer-Ends (ok op) w b h =
      let (r, v) = await_operation debug c L op.id w in
      forced_wait-Ends r v b (await-writes op.id w ∙ h)
  forced_answer-Ends (err e) w b h = error-Ends (is_already_stopped e) (lxd e) w b h

  force_stop-Ends :
      (w : World L) (b : List Request)
      → logged writes w ≡ b
      → Ends (has_stopped (forced w).0) (forced w).0 (force_stop debug c L name w) (forced_stop ∷ b)
  unfolding force_stop try_send send ◌>>=◌
  force_stop-Ends w b h = forced_answer-Ends _ _ (forced_stop ∷ b) (ap (λ cs. forced_stop ∷ cs) h)

  sent-writes :
      (r : Result LxdError Operation) (w : World L)
      → logged writes (continue (from_lxd r) (λ op. await_operation debug c L op.id) w).1
        ≡ logged writes w
  sent-writes (ok op) w = await-writes op.id w
  sent-writes (err e) w = refl

  graceful_stop-writes :
      (w : World L)
      → logged writes (graceful_stop debug c L name w).1 ≡ asked_stop ∷ logged writes w
  unfolding graceful_stop send ◌>>=◌
  graceful_stop-writes w = sent-writes (L.answer asked_stop w.state).0 _

  -- How a stop ends, by whether the instance has stopped after the graceful stop and after the forced
  -- one, which has the result `r`, in the calls that it adds to `b`.
  abbrev pub EndsIn :
      (gracefully by_force : Bool)
      → Result DriverError (Unit {0})
      → Result DriverError (Unit {0}) × World L
      → List Request
      → Type 0
  EndsIn true by_force r x b = (x.0 ≡ ok tt) × (logged writes x.1 ≡ asked_stop ∷ mark ∷ b)
  EndsIn false by_force r x b = Ends by_force r x (forced_stop ∷ asked_stop ∷ mark ∷ b)

  -- How a stop ends, where `w` is the world in which LXD is asked for the graceful one.
  abbrev pub Stops : World L → Result DriverError (Unit {0}) × World L → List Request → Type 0
  Stops w x b =
      EndsIn (has_stopped (asked w).0) (has_stopped (forced (asked w).1).0) (forced (asked w).1).0 x
        b

  -- The world after the instance was read, with LXD in the state `s`, and its stop marker was set.
  abbrev pub marked : L.State → World L → World L
  marked s w =
      let read = record (take_lock name w).1 { state = s; calls = get_instance name ∷ w.calls } in
      (set_stop_intent debug c L name read).1

  abbrev marked_stop : Action L (Unit {0})
  marked_stop =
      set_stop_intent debug c L name
      >> (attempt (graceful_stop debug c L name) >>= λ r. after_graceful debug c L name r)

  after_graceful-EndsIn :
      (r : Result DriverError (Unit {0})) (w : World L) (b : List Request)
      → logged writes w ≡ asked_stop ∷ mark ∷ b
      → EndsIn
          (has_stopped r)
          (has_stopped (forced w).0)
          (forced w).0
          (after_graceful debug c L name r w)
          b
  unfolding pure
  after_graceful-EndsIn (ok _) w b h = (refl, h)
  after_graceful-EndsIn (err e) w b h = by_error (means_stopped e)
    where
      by_error :
          (stopped : Bool)
          → EndsIn stopped
              (has_stopped (forced w).0)
              (forced w).0
              ((if stopped then pure tt else force_stop debug c L name) w)
              b
      by_error true = (refl, h)
      by_error false = force_stop-Ends w (asked_stop ∷ mark ∷ b) h

  stop_found-Stops :
      (i : Instance) (w : World L)
      → eq_ignore_ascii_case i.status "Stopped" ≡ false
      → Stops (set_stop_intent debug c L name w).1 (stop_found debug c L name i w) (logged writes w)
  unfolding pure set_stop_intent try_send attempt graceful_stop ◌>>=◌
  stop_found-Stops i w h =
      let v = (set_stop_intent debug c L name w).1 in
      subst (λ t. Stops v ((if t then pure tt else marked_stop) w) (logged writes w)) (sym h)
        (let (r, u) = graceful_stop debug c L name v in
          after_graceful-EndsIn r u (logged writes w) (graceful_stop-writes v))

  managed-ours :
      (i : Instance) (w : World L)
      → is_managed i ≡ true
      → managed debug c L name (ok i) w ≡ (ok i, w)
  unfolding pure
  managed-ours i w h = ground arith

  get_managed_instance-found :
      (i : Instance) (w : World L) (s : L.State)
      → L.answer (get_instance name) w.state ≡ (ok i, s)
      → is_managed i ≡ true
      → get_managed_instance debug c L name w
        ≡ (ok i, record w { state = s; calls = get_instance name ∷ w.calls })
  unfolding get_managed_instance try_send pure ◌>>=◌
  get_managed_instance-found i w s found ours =
      ap
        (λ x.
          managed debug c L name x.0
            (record w { state = x.1; calls = get_instance name ∷ w.calls }))
        found
      ∙ managed-ours i (record w { state = s; calls = get_instance name ∷ w.calls }) ours

-- For a managed instance that is not stopped, whatever LXD answers to what follows: the stop marker is
-- set before LXD is asked to stop the instance. Where the graceful stop succeeds, or fails as the
-- instance has stopped, the call succeeds and changes nothing more. Otherwise LXD is asked for the forced
-- stop: where that succeeds, or fails as the instance has stopped, the call succeeds; and otherwise it
-- fails with that error, and clears the marker as its last change.
pub stop_sandbox-trace :
    (debug : String → String) (c : Config) (L : Lxd) (name : String) (w : World L) (i : Instance)
    (s : L.State)
    → L.answer (get_instance name) w.state ≡ (ok i, s)
    → is_managed i ≡ true
    → eq_ignore_ascii_case i.status "Stopped" ≡ false
    → Stops debug c L name
        (marked debug c L name s w)
        (stop_sandbox debug c L name w)
        (logged writes w)
unfolding stop_sandbox take_lock ◌>>=◌
stop_sandbox-trace debug c L name w i s found ours up =
    let v = (take_lock name w).1 in
    let now = record v { state = s; calls = get_instance name ∷ v.calls } in
    subst
      (λ x.
        Stops debug c L name (marked debug c L name s w)
          (continue x.0 (stop_found debug c L name) x.1) (logged writes w))
      (sym (get_managed_instance-found debug c L name i v s found ours))
      (stop_found-Stops debug c L name i now up)
