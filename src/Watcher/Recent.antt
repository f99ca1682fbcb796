-- ===== src/Watcher/Recent.antt =====
-- crates/openshell-driver-lxd/src/watcher.rs: the window of recent events, and the snapshots sent.
use openshell_driver_lxd.Common.{
  ◌+◌, ◌≤◌, ◌≡◌, refl, ◌∙◌, arith, String, List, [], ◌∷◌, ◌++◌, Option, none, some, Bool, true,
  false,
}
use openshell_driver_lxd.Common.{
  not, ◌||◌, ◌==◌, nat_eq, string_eq, eq_refl, if◌then◌else◌, if-both, option-both, contains, any,
  length, length-append, drop, All, Bool-cases, inl, inr,
}
use openshell_driver_lxd.Common.Dict.{lookup}
use openshell_driver_lxd.Lxd.{Lxd}
use openshell_driver_lxd.Lxd.Types.{LxdError, Result, ok, err, Instance}
use openshell_driver_lxd.Lxd.Actions.{World, Action, continue, pure, ◌>>=◌, try_send}
use openshell_driver_lxd.Errors.{DriverError}
use openshell_driver_lxd.Mapping.{
  DriverCondition, live, key_sandbox_id, condition_runtime_restart, instance_to_driver_sandbox_live,
  to_driver_sandbox,
}
use openshell_driver_lxd.Mapping.Condition.{ready_condition-runtime_restart}
use openshell_driver_lxd.Watcher.{
  Event, WatchEvent, sandbox, deleted, Watcher, event_key, recent_events, first_sighting,
  deleted_action, watched_actions, forget, observe, act, act_on, handle, handle_all, instance_name,
}

any-append : (p : String → Bool) (xs ys : List String) → any p (xs ++ ys) ≡ (any p xs || any p ys)
any-append p [] ys = refl
any-append p (x ∷ xs) ys = ground (arith, any-append p xs ys)

any-here : (xs : List String) (a : String) → contains (xs ++ (a ∷ [])) a ≡ true
any-here xs a = any-append (λ x. x == a) xs (a ∷ []) ∙ ground (arith, eq_refl a)

first_sighting-records :
    (keys : List String) (event : Event)
    → contains (first_sighting keys event).1 (event_key event) ≡ true
unfolding first_sighting
first_sighting-records keys event = elim (Bool-cases (contains keys (event_key event))) [
  | inl seen ↦ rw seen seen
  | inr fresh ↦ rw fresh (any-here _ (event_key event))
]

first_sighting-seen :
    (keys : List String) (event : Event)
    → contains keys (event_key event) ≡ true
    → (first_sighting keys event).0 ≡ false
unfolding first_sighting
first_sighting-seen keys event h = rw h refl

-- An event that was just recorded is a repeat, whatever the window held.
pub first_sighting-repeat :
    (keys : List String) (event : Event)
    → (first_sighting (first_sighting keys event).1 event).0 ≡ false
first_sighting-repeat keys event =
    first_sighting-seen (first_sighting keys event).1 event (first_sighting-records keys event)

one_less :
    (keys : List String) → length keys ≡ recent_events → length (drop 1 keys) + 1 ≡ recent_events
one_less [] h = omega (arith, h)
one_less (x ∷ xs) h = omega (arith, h)

-- A window of at most 64 events still has at most 64 after the next event.
pub first_sighting-bounded :
    (keys : List String) (event : Event)
    → length keys ≤ recent_events
    → length (first_sighting keys event).1 ≤ recent_events
unfolding first_sighting
first_sighting-bounded keys event h =
    let rest = if length keys == recent_events then drop 1 keys else keys in
    ground (arith, h, one_less keys, length-append rest (event_key event ∷ []))

-- An observation that blames no runtime restart.
abbrev pub BlamesNobody : WatchEvent → Type 0
BlamesNobody (deleted id) = Unit
BlamesNobody (sandbox o) =
    All (λ (d : DriverCondition). (d.reason == condition_runtime_restart) ≡ false)
      o.status.conditions

abbrev Still : Result DriverError Watcher → Type 0
Still (ok v) = All BlamesNobody v.sent
Still (err e) = ⊥

module _ (debug : String → String) (L : Lxd) where
  observe-BlamesNobody :
      (v : Watcher) (name : String) (r : Result LxdError Instance)
      → All BlamesNobody v.sent
      → All BlamesNobody (observe debug v name r).sent
  unfolding observe instance_to_driver_sandbox_live to_driver_sandbox
  observe-BlamesNobody v name (err e) h = h
  observe-BlamesNobody v name (ok i) h =
      option-both (λ (x : Watcher). All BlamesNobody x.sent) (lookup key_sandbox_id i.config) v _ h
        λ id. ((ready_condition-runtime_restart debug i live, tt), h)

  -- A result, and it blames no runtime restart.
  abbrev pub Fair : Result DriverError (Watcher × Option LxdError) → Type 0
  Fair (ok (v, e)) = All BlamesNobody v.sent
  Fair (err e) = ⊥

  forget-BlamesNobody :
      (v : Watcher) (name : String)
      → All BlamesNobody v.sent
      → All BlamesNobody (forget v name).sent
  unfolding forget
  forget-BlamesNobody v name h =
      option-both (λ (x : Watcher). All BlamesNobody x.sent) (lookup name v.known) v _ h
        λ id. (tt, h)

  act-BlamesNobody :
      (v : Watcher) (action name : String) (w : World L)
      → All BlamesNobody v.sent
      → Still (act debug L v action name w).0
  unfolding act try_send pure ◌>>=◌
  act-BlamesNobody v action name w h =
      if-both (λ (m : Action L Watcher). Still (m w).0) (action == deleted_action) _ _
        (forget-BlamesNobody v name h)
        (if-both (λ (m : Action L Watcher). Still (m w).0) (not (contains watched_actions action)) _
          _ h (observe-BlamesNobody v name _ h))

  act_on-BlamesNobody :
      (v : Watcher) (action name : Option String) (w : World L)
      → All BlamesNobody v.sent
      → Still (act_on debug L v action name w).0
  unfolding pure
  act_on-BlamesNobody v (some action) (some name) w h = act-BlamesNobody v action name w h
  act_on-BlamesNobody v (some action) none w h = h
  act_on-BlamesNobody v none name w h = h

  handle-BlamesNobody :
      (v : Watcher) (event : Event) (w : World L)
      → All BlamesNobody v.sent
      → Still (handle debug L v event w).0
  unfolding handle pure
  handle-BlamesNobody v event w h =
      if-both (λ (m : Action L Watcher). Still (m w).0) (not (first_sighting v.recent event).0) _ _
        h (act_on-BlamesNobody _ event.metadata.action (instance_name event.metadata) w h)

  continued-Fair :
      (r : Result DriverError Watcher) (events : List (Result LxdError Event)) (u : World L)
      → ((v : Watcher) (w : World L)
          → All BlamesNobody v.sent
          → Fair (handle_all debug L v events w).0)
      → Still r
      → Fair (continue r (λ v. handle_all debug L v events) u).0
  continued-Fair (ok v) events u rest h = rest v u h
  continued-Fair (err e) events u rest h = absurd h

  handle_all-Fair :
      (v : Watcher) (events : List (Result LxdError Event)) (w : World L)
      → All BlamesNobody v.sent
      → Fair (handle_all debug L v events w).0
  unfolding handle_all pure ◌>>=◌
  handle_all-Fair v [] w h = h
  handle_all-Fair v (err e ∷ events) w h = h
  handle_all-Fair v (ok event ∷ events) w h =
      let (r, u) = handle debug L v event w in
      continued-Fair r events u (λ x y. handle_all-Fair x events y)
        (handle-BlamesNobody v event w h)

-- Whatever the events and whatever LXD answers: the loop returns, and the snapshots that the watcher sends never report
-- that LXD itself stopped the sandbox, provided that those already sent do not.
pub handle_all-BlamesNobody :
    (debug : String → String) (L : Lxd) (v : Watcher) (events : List (Result LxdError Event))
    (w : World L)
    → All BlamesNobody v.sent
    → Fair debug L (handle_all debug L v events w).0
handle_all-BlamesNobody debug L v events w h = handle_all-Fair debug L v events w h
