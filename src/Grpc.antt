-- ===== src/Grpc.antt =====
-- crates/openshell-driver-lxd/src/grpc.rs: the RPCs on sandboxes that exist, over the driver's methods.
-- `debug` is the debug form of a text.
pub mod Addressing
pub mod Absent
use openshell_driver_lxd.Common.{
  String, ◌<>◌, List, [], ◌∷◌, ◌++◌, map, Option, none, some, Bool, true, false, if◌then◌else◌, not,
  ℕ,
}
use openshell_driver_lxd.Common.Text.{is_empty}
use openshell_driver_lxd.Common.Decimal.{show}
use openshell_driver_lxd.Lxd.{Lxd}
use openshell_driver_lxd.Lxd.Types.{Result, ok, err}
use openshell_driver_lxd.Lxd.Actions.{World, Action}
use openshell_driver_lxd.Errors.{DriverError, Code, Status, status, to_status}
use openshell_driver_lxd.Config.{Config}
use openshell_driver_lxd.Mapping.{Observation}
use openshell_driver_lxd.Mapping.Request.{Sandbox}
use openshell_driver_lxd.Driver.Reads.{get_sandbox, list_sandboxes, find_name_by_sandbox_id}
use openshell_driver_lxd.Driver.Start.{start_sandbox}
use openshell_driver_lxd.Driver.Stop.{stop_sandbox}
use openshell_driver_lxd.Driver.Delete.{delete_sandbox}
use openshell_driver_lxd.Driver.Checks.{validate_sandbox_create}
use openshell_driver_lxd.Watcher.{WatchEvent}
use openshell_driver_lxd.Watcher

-- A handler: its reply, and the world that it leaves.
abbrev pub Handler : Lxd → Type 0 → Type 0
Handler L A = World L → Result Status A × World L

module _ {L : Lxd} {A B : Type 0} where
  abbrev pub proceed : Result Status A → (A → Handler L B) → Handler L B
  proceed (ok a) f w = f a w
  proceed (err e) f w = (err e, w)

  infixl 10 ◌>>=◌
  unfoldable pub ◌>>=◌ : Handler L A → (A → Handler L B) → Handler L B
  ◌>>=◌ m f w = let (r, v) = m w in proceed r f v

-- A request that names a sandbox or gives its id.
pub record Target : Type 0 where
  pub sandbox_name : String
  pub sandbox_id : String

-- `status.code() == Code::NotFound`
abbrev pub is_not_found : Code → Bool
is_not_found Code.not_found = true
is_not_found _ = false

-- The driver's errors as statuses.
abbrev pub as_status : {A : Type 0} → (String → String) → Result DriverError A → Result Status A
as_status debug (ok a) = ok a
as_status debug (err e) = err (to_status debug e)

module _ (debug : String → String) {L : Lxd} where
  abbrev pub reply : {A : Type 0} → A → Handler L A
  reply a w = (ok a, w)

  abbrev pub refuse : {A : Type 0} → Status → Handler L A
  refuse s w = (err s, w)

  -- A method of the driver under `?`.
  unfoldable pub through : {A : Type 0} → Action L A → Handler L A
  through m w = let (r, v) = m w in (as_status debug r, v)

module _ (debug : String → String) (c : Config) (L : Lxd) where
  abbrev pub name_required : Status
  name_required =
      to_status debug (DriverError.invalid_argument "sandbox_name or sandbox_id is required")

  abbrev pub no_sandbox : String → Status
  no_sandbox sandbox_id =
      status Code.not_found ("no sandbox found with sandbox_id " <> debug sandbox_id)

  abbrev pub found_name : String → Option String → Handler L String
  found_name sandbox_id none = refuse debug (no_sandbox sandbox_id)
  found_name sandbox_id (some name) = reply debug name

  unfoldable pub resolve_name : Target → Handler L String
  resolve_name t =
      if not (is_empty t.sandbox_name)
      then reply debug t.sandbox_name
      else if is_empty t.sandbox_id
      then refuse debug name_required
      else do
        name ← through debug (find_name_by_sandbox_id debug c L t.sandbox_id)
        found_name t.sandbox_id name

  unfoldable pub start_sandbox_rpc : Target → Handler L (Unit {0})
  start_sandbox_rpc t = do name ← resolve_name t; through debug (start_sandbox debug c L name)

  unfoldable pub stop_sandbox_rpc : Target → Handler L (Unit {0})
  stop_sandbox_rpc t = do name ← resolve_name t; through debug (stop_sandbox debug c L name)

  unfoldable pub get_sandbox_rpc : Target → Handler L Observation
  get_sandbox_rpc t = do name ← resolve_name t; through debug (get_sandbox debug c L name)

  unfoldable pub list_sandboxes_rpc : Handler L (Option (List Observation))
  list_sandboxes_rpc = through debug (list_sandboxes debug c L)

  -- Whether a sandbox was deleted, and the events published.
  abbrev pub after_deletion : Option String → Handler L (Bool × List WatchEvent)
  after_deletion none = reply debug (false, [])
  after_deletion (some sandbox_id) =
      reply debug (true, if not (is_empty sandbox_id) then Watcher.deleted sandbox_id ∷ [] else [])

  unfoldable pub delete_named : Result Status String → Handler L (Bool × List WatchEvent)
  delete_named (ok name) = do
    deleted ← through debug (delete_sandbox debug c L name)
    after_deletion deleted
  delete_named (err e) = if is_not_found e.code then reply debug (false, []) else refuse debug e

  unfoldable pub delete_sandbox_rpc : Target → Handler L (Bool × List WatchEvent)
  delete_sandbox_rpc t w = let (name, v) = resolve_name t w in delete_named name v
