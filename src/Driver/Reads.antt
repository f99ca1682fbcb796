-- ===== src/Driver/Reads.antt =====
-- crates/openshell-driver-lxd/src/driver.rs: `get_sandbox`, `list_sandboxes` and
-- `find_name_by_sandbox_id`.
use openshell_driver_lxd.Common.{ℕ, zero, suc, ◌+◌, String, List, [], ◌∷◌, Option, none, some}
use openshell_driver_lxd.Common.{not, nat_eq, string_eq, if◌then◌else◌, get_elem?, find}
use openshell_driver_lxd.Lxd.Types.{LxdError, Result, ok, err, Instance}
use openshell_driver_lxd.Lxd.{Lxd, get_instance, list_instances}
use openshell_driver_lxd.Lxd.Actions.{Action, pure, ◌>>=◌, ◌>>◌, try_send, send, sleep}
use openshell_driver_lxd.Config.{Config}
use openshell_driver_lxd.Mapping.{Observation, stopped_by_the_runtime, instance_to_driver_sandbox}
use openshell_driver_lxd.Driver.{runtime_restart_settle, is_managed, has_id, get_managed_instance}

abbrev pub or_before : Instance → Result LxdError Instance → Instance
or_before before (ok now) = now
or_before before (err e) = before

-- `sandboxes[index] = …`, at an index in range.
unfoldable pub set_at : List Observation → ℕ → Observation → List Observation
set_at [] i v = []
set_at (x ∷ xs) zero v = v ∷ xs
set_at (x ∷ xs) (suc i) v = x ∷ set_at xs i v

module _ (debug : String → String) where
  -- The first pass of `list_sandboxes`: the managed instances, and the positions of those that look
  -- stopped by LXD. `n` is the number of sandboxes before them.
  unfoldable pub collect : ℕ → List Instance → List Observation × List ℕ
  collect n [] = ([], [])
  collect n (i ∷ is) =
      let (sandboxes, unsettled) = collect (n + 1) is in
      let (rest, rest_unsettled) = collect n is in
      if is_managed i
      then (
        instance_to_driver_sandbox debug i ∷ sandboxes,
        if stopped_by_the_runtime i then n ∷ unsettled else unsettled,
      )
      else (rest, rest_unsettled)

  abbrev pub reread : List Observation → ℕ → Result LxdError Instance → List Observation
  reread sandboxes index (ok i) = set_at sandboxes index (instance_to_driver_sandbox debug i)
  reread sandboxes index (err e) = sandboxes

abbrev pub name_of : Option Instance → Option String
name_of none = none
name_of (some i) = some i.name

module _ (debug : String → String) (c : Config) (L : Lxd) where
  unfoldable pub confirm_runtime_restart : Instance → Action L Instance
  confirm_runtime_restart i =
      if not (stopped_by_the_runtime i)
      then pure i
      else do sleep runtime_restart_settle; r ← try_send (get_instance i.name); pure (or_before i r)

  unfoldable pub get_sandbox : String → Action L Observation
  get_sandbox name = do
    i ← get_managed_instance debug c L name
    now ← confirm_runtime_restart i
    pure (instance_to_driver_sandbox debug now)

  -- The second pass: the unsettled ones are read again. `none` is an index out of range, a panic.
  unfoldable pub resettle : List ℕ → List Observation → Action L (Option (List Observation))
  resettle [] sandboxes = pure (some sandboxes)
  resettle (index ∷ rest) sandboxes = elim (get_elem? sandboxes index) [
    | none ↦ pure none
    | some s ↦ do r ← try_send (get_instance s.name); resettle rest (reread debug sandboxes index r)
  ]

  abbrev pub settle_list : List Observation × List ℕ → Action L (Option (List Observation))
  settle_list (sandboxes, []) = pure (some sandboxes)
  settle_list (sandboxes, index ∷ rest) = do
    sleep runtime_restart_settle
    resettle (index ∷ rest) sandboxes

  unfoldable pub list_sandboxes : Action L (Option (List Observation))
  list_sandboxes = do instances ← send list_instances; settle_list (collect debug 0 instances)

  unfoldable pub find_name_by_sandbox_id : String → Action L (Option String)
  find_name_by_sandbox_id sandbox_id = do
    instances ← send list_instances
    pure (name_of (find (has_id sandbox_id) instances))
