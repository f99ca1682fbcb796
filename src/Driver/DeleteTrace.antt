-- ===== src/Driver/DeleteTrace.antt =====
-- crates/openshell-driver-lxd/src/driver.rs: the calls by which `delete_sandbox` changes LXD.
use openshell_driver_lxd.Common.{
  String, List, ◌∷◌, ◌≡◌, refl, ap, ◌∙◌, arith, Option, none, some, true, if-both,
}
use openshell_driver_lxd.Common.Dict.{lookup}
use openshell_driver_lxd.Lxd.{
  Lxd, Request, get_instance, stop_instance, delete_instance, is_missing,
}
use openshell_driver_lxd.Lxd.Types.{LxdError, Result, ok, err, Instance, Operation}
use openshell_driver_lxd.Lxd.Actions.{
  World, Action, continue, pure, raise, attempt, ◌>>=◌, ◌>>◌, try_send, take_lock, drop_lock,
}
use openshell_driver_lxd.Lxd.Quiet.{logged}
use openshell_driver_lxd.Errors.{DriverError, lxd}
use openshell_driver_lxd.Config.{Config, pos}
use openshell_driver_lxd.Mapping.{key_sandbox_id}
use openshell_driver_lxd.Driver.{await_operation, is_already_stopped, means_stopped}
use openshell_driver_lxd.Driver.Scope.{writes, await_operation-Quiet}
use openshell_driver_lxd.Driver.Delete.{
  deleted, delete_stopped, after_wait, after_stop, delete_found, delete_sandbox,
}

module _ (debug : String → String) (c : Config) (L : Lxd) (name sandbox_id : String) where
  abbrev Outcome : Type 0
  Outcome = Result DriverError (Option String) × World L

  -- Where the outcome reports `sandbox_id`: it is the id `id`, and `done` are the changes made.
  abbrev Sound : String → List Request → Outcome → Type 0
  Sound id done x = x.0 ≡ ok (some sandbox_id) → (id ≡ sandbox_id) × (logged writes x.1 ≡ done)

  raised :
      (id : String) (done : List Request) (e : DriverError) (w : World L)
      → Sound id done (raise e w)
  unfolding raise
  raised id done e w h = absurd (ground (arith, h))

  nothing : (id : String) (done : List Request) (w : World L) → Sound id done (pure none w)
  unfolding pure
  nothing id done w h = absurd (ground (arith, h))

  -- The end of a deletion, once its operation has ended with `r`.
  abbrev ending : String → Result DriverError (Unit {0}) → Action L (Option String)
  ending id r w = continue r (λ _. drop_lock name >> pure (some id)) w

  ending-Sound :
      (id : String) (r : Result DriverError (Unit {0})) (w : World L)
      → Sound id (logged writes w) (ending id r w)
  unfolding drop_lock pure ◌>>=◌
  ending-Sound id (ok _) w h = (cc, refl)
  ending-Sound id (err e) w h = absurd (ground (arith, h))

  deleted-Sound :
      (id : String) (r : Result LxdError Operation) (w : World L)
      → Sound id (logged writes w) (deleted debug c L name id r w)
  unfolding ◌>>=◌
  deleted-Sound id (ok op) w h =
      let (r, v) = await_operation debug c L op.id w in
      let (same, done) = ending-Sound id r v h in
      (same, done ∙ (await_operation-Quiet debug c L writes (λ _ _. refl) op.id).at w)
  deleted-Sound id (err e) w h =
      if-both (λ (m : Action L (Option String)). Sound id (logged writes w) (m w)) (is_missing e)
        (pure none) (raise (lxd e)) (nothing id _ w) (raised id _ (lxd e) w) h

  delete_stopped-Sound :
      (id : String) (w : World L) (b : List Request)
      → logged writes w ≡ b
      → Sound id (delete_instance name ∷ b) (delete_stopped debug c L name id w)
  unfolding delete_stopped try_send ◌>>=◌
  delete_stopped-Sound id w b k h =
      let (answer, state) = L.answer (delete_instance name) w.state in
      let sent = record w { state = state; calls = delete_instance name ∷ w.calls } in
      let (same, done) = deleted-Sound id answer sent h in
      (same, done ∙ ap (λ cs. delete_instance name ∷ cs) k)

  after_wait-Sound :
      (id : String) (r : Result DriverError (Unit {0})) (w : World L) (b : List Request)
      → logged writes w ≡ b
      → Sound id (delete_instance name ∷ b) (after_wait debug c L name id r w)
  after_wait-Sound id (ok _) w b k h = delete_stopped-Sound id w b k h
  after_wait-Sound id (err e) w b k h =
      if-both (λ (m : Action L (Option String)). Sound id (delete_instance name ∷ b) (m w))
        (means_stopped e) (delete_stopped debug c L name id) (raise e)
        (delete_stopped-Sound id w b k) (raised id _ e w) h

  after_stop-Sound :
      (id : String) (r : Result LxdError Operation) (w : World L) (b : List Request)
      → logged writes w ≡ b
      → Sound id (delete_instance name ∷ b) (after_stop debug c L name id r w)
  unfolding attempt ◌>>=◌
  after_stop-Sound id (ok op) w b k h =
      let (r, v) = await_operation debug c L op.id w in
      after_wait-Sound id r v b
        ((await_operation-Quiet debug c L writes (λ _ _. refl) op.id).at w ∙ k) h
  after_stop-Sound id (err e) w b k h =
      if-both (λ (m : Action L (Option String)). Sound id (delete_instance name ∷ b) (m w))
        (is_already_stopped e) (delete_stopped debug c L name id) _ (delete_stopped-Sound id w b k)
        (if-both (λ (m : Action L (Option String)). Sound id (delete_instance name ∷ b) (m w))
          (is_missing e) (pure none) (raise (lxd e)) (nothing id _ w) (raised id _ (lxd e) w))
        h

  -- The rest of a deletion, given the marker of the instance.
  abbrev marked : Option String → Action L (Option String)
  marked o = elim o [
    | none ↦ pure none
    | some id ↦ try_send (stop_instance name true (pos 0)) >>= λ r. after_stop debug c L name id r
  ]

  -- The changes of a deletion.
  abbrev pub gone : List Request → List Request
  gone before = delete_instance name ∷ stop_instance name true (pos 0) ∷ before

  marked-gone :
      (o : Option String) (w : World L)
      → (marked o w).0 ≡ ok (some sandbox_id)
      → (o ≡ some sandbox_id) × (logged writes (marked o w).1 ≡ gone (logged writes w))
  unfolding pure try_send ◌>>=◌
  marked-gone none w h = absurd (ground (arith, h))
  marked-gone (some id) w h =
      let (answer, state) = L.answer (stop_instance name true (pos 0)) w.state in
      let sent = record w { state = state; calls = stop_instance name true (pos 0) ∷ w.calls } in
      let (same, done) = after_stop-Sound id answer sent (logged writes sent) refl h in
      (ap some same, done)

  -- The instance that was read, with its id.
  abbrev pub Owned : Result LxdError Instance → Type 0
  Owned r = (i : Instance) × (r ≡ ok i) × (lookup key_sandbox_id i.config ≡ some sandbox_id)

  -- A failed read ends a deletion without a sandbox.
  refused :
      (e : LxdError) (w : World L)
      → (delete_found debug c L name (err e) w).0 ≡ ok (some sandbox_id)
      → ⊥
  unfolding pure raise
  refused e w =
      if-both (λ (m : Action L (Option String)). (m w).0 ≡ ok (some sandbox_id) → ⊥) (is_missing e)
        (pure none) (raise (lxd e)) (λ h. ground (arith, h)) (λ h. ground (arith, h))

  delete_found-gone :
      (r : Result LxdError Instance) (w : World L)
      → (delete_found debug c L name r w).0 ≡ ok (some sandbox_id)
      → Owned r × (logged writes (delete_found debug c L name r w).1 ≡ gone (logged writes w))
  delete_found-gone (ok i) w h =
      let (id, done) = marked-gone (lookup key_sandbox_id i.config) w h in ((i, refl, id), done)
  delete_found-gone (err e) w h = absurd (refused e w h)

-- A deletion that returns a sandbox's id has read an instance of that name with that id, has asked LXD
-- to stop that instance and then to delete it, and has changed nothing else in LXD.
pub delete_sandbox-some :
    (debug : String → String) (c : Config) (L : Lxd) (name sandbox_id : String) (w : World L)
    → (delete_sandbox debug c L name w).0 ≡ ok (some sandbox_id)
    → Owned debug c L name sandbox_id (L.answer (get_instance name) w.state).0
      × (logged writes (delete_sandbox debug c L name w).1
          ≡ gone debug c L name sandbox_id (logged writes w))
unfolding delete_sandbox take_lock try_send ◌>>=◌
delete_sandbox-some debug c L name sandbox_id w h =
    delete_found-gone debug c L name sandbox_id (L.answer (get_instance name) w.state).0 _ h
