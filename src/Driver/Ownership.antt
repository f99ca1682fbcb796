-- ===== src/Driver/Ownership.antt =====
-- crates/openshell-driver-lxd/src/driver.rs: instances that are not the driver's.
use openshell_driver_lxd.Common.{
  ◌≡◌, refl, String, ◌∷◌, none, Bool, true, not, string_eq, ap, arith, ◌∙◌,
}
use openshell_driver_lxd.Common.Dict.{lookup}
use openshell_driver_lxd.Lxd.{Lxd}
use openshell_driver_lxd.Lxd.{is_missing, get_instance}
use openshell_driver_lxd.Lxd.Types.{LxdError, Result, ok, err, Instance}
use openshell_driver_lxd.Lxd.Actions.{
  take_lock, continue, raise, Action, World, pure, try_send, ◌>>=◌,
}
use openshell_driver_lxd.Errors.{DriverError}
use openshell_driver_lxd.Config.{Config}
use openshell_driver_lxd.Mapping.{key_sandbox_id}
use openshell_driver_lxd.Driver.{managed, get_managed_instance}
use openshell_driver_lxd.Driver.Reads.{get_sandbox}
use openshell_driver_lxd.Driver.Start.{start_sandbox}
use openshell_driver_lxd.Driver.Stop.{stop_sandbox}
use openshell_driver_lxd.Driver.Delete.{delete_found, delete_sandbox}
use openshell_driver_lxd.Driver.{is_managed, missing}

-- An instance of another owner, or none.
abbrev pub foreign : Result LxdError Instance → Bool
foreign (ok i) = not (is_managed i)
foreign (err e) = is_missing e

module _ (debug : String → String) (c : Config) (L : Lxd) (name : String) where
  managed-foreign :
      (r : Result LxdError Instance) (w : World L)
      → foreign r ≡ true
      → managed debug c L name r w ≡ (err (missing debug name), w)
  unfolding raise pure
  managed-foreign (ok i) w h = ground arith
  managed-foreign (err e) w h = ground arith

  abbrev pub looked_up : World L → World L
  looked_up w = record w {
    state = (L.answer (get_instance name) w.state).1;
    calls = get_instance name ∷ w.calls;
  }

  get_managed_instance-foreign :
      (w : World L)
      → foreign (L.answer (get_instance name) w.state).0 ≡ true
      → get_managed_instance debug c L name w ≡ (err (missing debug name), looked_up w)
  unfolding get_managed_instance try_send ◌>>=◌
  get_managed_instance-foreign w h =
      managed-foreign (L.answer (get_instance name) w.state).0 (looked_up w) h

  bind-foreign :
      {A : Type 0} (f : Instance → Action L A) (w : World L)
      → foreign (L.answer (get_instance name) w.state).0 ≡ true
      → (get_managed_instance debug c L name >>= f) w ≡ (err (missing debug name), looked_up w)
  unfolding ◌>>=◌
  bind-foreign f w h = ap (λ x. continue x.0 f x.1) (get_managed_instance-foreign w h)

  delete_found-foreign :
      (r : Result LxdError Instance) (w : World L)
      → foreign r ≡ true
      → delete_found debug c L name r w ≡ (ok none, w)
  unfolding pure
  delete_found-foreign (ok i) w h =
      let gone : lookup key_sandbox_id i.config ≡ none = ground arith in rw (gone, delete_found)
  delete_found-foreign (err e) w h = ground arith

  -- Only the one read, and its result.
  abbrev pub Refuses : {A : Type 0} → Action L A → Result DriverError A → World L → Type 0
  Refuses m r w = ((m w).0 ≡ r) × ((m w).1.calls ≡ get_instance name ∷ w.calls)

  Refuses-of :
      {A : Type 0} (m : Action L A) (r : Result DriverError A) (w v : World L)
      → m w ≡ (r, looked_up v)
      → v.calls ≡ w.calls
      → Refuses m r w
  Refuses-of m r w v h k =
      (ap (λ x. x.0) h, ap (λ x. x.1.calls) h ∙ ap (λ cs. get_instance name ∷ cs) k)

  get_sandbox-foreign :
      (w : World L)
      → foreign (L.answer (get_instance name) w.state).0 ≡ true
      → Refuses (get_sandbox debug c L name) (err (missing debug name)) w
  unfolding get_sandbox
  get_sandbox-foreign w h = Refuses-of (get_sandbox debug c L name) _ w w (bind-foreign _ w h) refl

  start_sandbox-foreign :
      (w : World L)
      → foreign (L.answer (get_instance name) w.state).0 ≡ true
      → Refuses (start_sandbox debug c L name) (err (missing debug name)) w
  unfolding start_sandbox
  start_sandbox-foreign w h =
      Refuses-of (start_sandbox debug c L name) _ w w (bind-foreign _ w h) refl

  abbrev locked : World L → World L
  locked w = (take_lock name w).1

  stop_sandbox-foreign :
      (w : World L)
      → foreign (L.answer (get_instance name) w.state).0 ≡ true
      → Refuses (stop_sandbox debug c L name) (err (missing debug name)) w
  unfolding stop_sandbox take_lock ◌>>=◌
  stop_sandbox-foreign w h =
      Refuses-of (stop_sandbox debug c L name) _ w (locked w) (bind-foreign _ (locked w) h) refl

  delete_sandbox-foreign :
      (w : World L)
      → foreign (L.answer (get_instance name) w.state).0 ≡ true
      → Refuses (delete_sandbox debug c L name) (ok none) w
  unfolding delete_sandbox take_lock try_send ◌>>=◌
  delete_sandbox-foreign w h =
      Refuses-of (delete_sandbox debug c L name) _ w (locked w)
        (delete_found-foreign (L.answer (get_instance name) w.state).0 (looked_up (locked w)) h)
        refl

-- An instance that is missing, or that lacks the driver's marker, is left alone: the methods make
-- the one call that reads it; deleting it succeeds with no sandbox, the others fail as not found.
pub foreign-left_alone :
    (debug : String → String) (c : Config) (L : Lxd) (name : String) (w : World L)
    → foreign (L.answer (get_instance name) w.state).0 ≡ true
    → Refuses debug c L name (get_sandbox debug c L name) (err (missing debug name)) w
      × Refuses debug c L name (start_sandbox debug c L name) (err (missing debug name)) w
      × Refuses debug c L name (stop_sandbox debug c L name) (err (missing debug name)) w
      × Refuses debug c L name (delete_sandbox debug c L name) (ok none) w
foreign-left_alone debug c L name w h = (
  get_sandbox-foreign debug c L name w h,
  start_sandbox-foreign debug c L name w h,
  stop_sandbox-foreign debug c L name w h,
  delete_sandbox-foreign debug c L name w h,
)
