-- ===== src/Grpc/Absent.antt =====
-- crates/openshell-driver-lxd/src/grpc.rs: requests for sandboxes that do not exist.
use openshell_driver_lxd.Common.{
  ◌≡◌, refl, ap, ◌∙◌, String, List, [], ◌∷◌, none, Bool, true, false, find,
}
use openshell_driver_lxd.Common.Text.{is_empty}
use openshell_driver_lxd.Lxd.{Lxd, Request, get_instance, list_instances}
use openshell_driver_lxd.Lxd.Types.{ok, err, Instance}
use openshell_driver_lxd.Lxd.Actions.{World, Action}
use openshell_driver_lxd.Errors.{Code, Status, to_status}
use openshell_driver_lxd.Config.{Config}
use openshell_driver_lxd.Driver.{has_id, missing}
use openshell_driver_lxd.Driver.Reads.{name_of, get_sandbox}
use openshell_driver_lxd.Driver.Start.{start_sandbox}
use openshell_driver_lxd.Driver.Stop.{stop_sandbox}
use openshell_driver_lxd.Driver.Delete.{delete_sandbox}
use openshell_driver_lxd.Driver.Ownership.{foreign, Refuses, foreign-left_alone}
use openshell_driver_lxd.Grpc.{
  Handler, proceed, ◌>>=◌, Target, through, as_status, found_name, no_sandbox, resolve_name,
  start_sandbox_rpc, stop_sandbox_rpc, get_sandbox_rpc, delete_named, after_deletion,
  delete_sandbox_rpc,
}
use openshell_driver_lxd.Watcher.{WatchEvent}
use openshell_driver_lxd.Grpc.Addressing.{listed, resolve_name-by_id, named, resolve_name-named}

-- A handler that refuses with a code, after one call.
abbrev pub RefusesAs : {L : Lxd} {A : Type 0} → Code → Request → Handler L A → World L → Type 0
RefusesAs {L} code call m w =
    ((s : Status) × ((m w).0 ≡ err s) × (s.code ≡ code)) × ((m w).1.calls ≡ call ∷ w.calls)

-- One that answers that nothing was deleted, with no event, after one call.
abbrev pub DeletesNothing :
    {L : Lxd} → Request → Handler L (Bool × List WatchEvent) → World L → Type 0
DeletesNothing {L} call m w = ((m w).0 ≡ ok (false, [])) × ((m w).1.calls ≡ call ∷ w.calls)

module _ (debug : String → String) (c : Config) (L : Lxd) where
  -- All that the RPCs do for a sandbox that does not exist.
  abbrev pub IsAbsent : Request → Target → World L → Type 0
  IsAbsent call t w =
      RefusesAs Code.not_found call (start_sandbox_rpc debug c L t) w
      × RefusesAs Code.not_found call (stop_sandbox_rpc debug c L t) w
      × RefusesAs Code.not_found call (get_sandbox_rpc debug c L t) w
      × DeletesNothing call (delete_sandbox_rpc debug c L t) w

  unresolved :
      {A : Type 0} (f : String → Handler L A) (t : Target) (call : Request) (w v : World L)
      → resolve_name debug c L t w ≡ (err (no_sandbox debug c L t.sandbox_id), v)
      → v.calls ≡ call ∷ w.calls
      → RefusesAs Code.not_found call (resolve_name debug c L t >>= f) w
  unfolding ◌>>=◌
  unresolved f t call w v h k = (
    (no_sandbox debug c L t.sandbox_id, ap (λ x. (proceed x.0 f x.1).0) h, refl),
    ap (λ x. (proceed x.0 f x.1).1.calls) h ∙ k,
  )

-- For a request with an id and no name, where LXD's list has no instance with that id: starting,
-- stopping and reading the sandbox fail as not found, deleting it succeeds with nothing deleted and no
-- event, and each makes the one call that lists the instances.
pub rpc-unknown_id :
    (debug : String → String) (c : Config) (L : Lxd) (t : Target) (w : World L)
    (instances : List Instance)
    → is_empty t.sandbox_name ≡ true
    → is_empty t.sandbox_id ≡ false
    → (L.answer list_instances w.state).0 ≡ ok instances
    → find (has_id t.sandbox_id) instances ≡ none
    → IsAbsent debug c L list_instances t w
unfolding start_sandbox_rpc stop_sandbox_rpc get_sandbox_rpc delete_sandbox_rpc delete_named
rpc-unknown_id debug c L t w instances unnamed identified answered unknown =
    let nothing : resolve_name debug c L t w
        ≡ (err (no_sandbox debug c L t.sandbox_id), listed debug c L w) =
      resolve_name-by_id debug c L t w instances unnamed identified answered
      ∙ ap (λ o. found_name debug c L t.sandbox_id (name_of o) (listed debug c L w)) unknown in
    (
      unresolved debug c L (λ name. through debug (start_sandbox debug c L name)) t list_instances w
          (listed debug c L w) nothing refl,
      unresolved debug c L (λ name. through debug (stop_sandbox debug c L name)) t list_instances w
          (listed debug c L w) nothing refl,
      unresolved debug c L (λ name. through debug (get_sandbox debug c L name)) t list_instances w
          (listed debug c L w) nothing refl,
      (
        ap (λ x. (delete_named debug c L x.0 x.1).0) nothing,
        ap (λ x. (delete_named debug c L x.0 x.1).1.calls) nothing,
      ),
    )

module _ (debug : String → String) (c : Config) (L : Lxd) where
  -- A method that refuses a named sandbox.
  named_refused :
      {A : Type 0} (m : String → Action L A) (name : String) (w : World L)
      → is_empty name ≡ false
      → Refuses debug c L name (m name) (err (missing debug name)) w
      → RefusesAs Code.not_found
          (get_instance name)
          (resolve_name debug c L (named name) >>= λ n. through debug (m n))
          w
  unfolding ◌>>=◌ through to_status
  named_refused m name w h k =
      let resolved = resolve_name-named debug c L name w h in
      (
        (
          to_status debug (missing debug name),
          ap (λ x. (proceed x.0 (λ n. through debug (m n)) x.1).0) resolved
              ∙ ap (as_status debug) k.0,
          refl,
        ),
        ap (λ x. (proceed x.0 (λ n. through debug (m n)) x.1).1.calls) resolved ∙ k.1,
      )

  deletes_nothing :
      (name : String) (w : World L)
      → is_empty name ≡ false
      → Refuses debug c L name (delete_sandbox debug c L name) (ok none) w
      → DeletesNothing (get_instance name) (delete_sandbox_rpc debug c L (named name)) w
  unfolding delete_sandbox_rpc delete_named through ◌>>=◌
  deletes_nothing name w h k =
      let resolved = resolve_name-named debug c L name w h in
      let v = (delete_sandbox debug c L name w).1 in
      let absent = ap (λ r. proceed (as_status debug r) (after_deletion debug c L) v) k.0 in
      (
        ap (λ x. (delete_named debug c L x.0 x.1).0) resolved ∙ ap (λ x. x.0) absent,
        ap (λ x. (delete_named debug c L x.0 x.1).1.calls) resolved
            ∙ (ap (λ x. x.1.calls) absent ∙ k.1),
      )

-- For a request with a name of which LXD has no instance, or none with the driver's marker: the same,
-- and the one call reads that instance.
pub rpc-foreign_name :
    (debug : String → String) (c : Config) (L : Lxd) (name : String) (w : World L)
    → is_empty name ≡ false
    → foreign (L.answer (get_instance name) w.state).0 ≡ true
    → IsAbsent debug c L (get_instance name) (named name) w
unfolding start_sandbox_rpc stop_sandbox_rpc get_sandbox_rpc delete_sandbox_rpc delete_named through
    ◌>>=◌
rpc-foreign_name debug c L name w filled h =
    let (get, start, stop, delete) = foreign-left_alone debug c L name w h in
    let resolved = resolve_name-named debug c L name w filled in
    (
      named_refused debug c L (λ n. start_sandbox debug c L n) name w filled start,
      named_refused debug c L (λ n. stop_sandbox debug c L n) name w filled stop,
      named_refused debug c L (λ n. get_sandbox debug c L n) name w filled get,
      deletes_nothing debug c L name w filled delete,
    )
