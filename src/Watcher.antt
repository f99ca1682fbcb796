-- ===== src/Watcher.antt =====
-- crates/openshell-driver-lxd/src/watcher.rs: the lifecycle events of LXD as observations and
-- deletions of sandboxes. The JSON metadata of an event is given by what the watcher reads of it; the
-- events of a subscription are the list of what the stream yields until it ends.
pub mod Recent
pub mod Known
use openshell_driver_lxd.Common.{
  ℕ, String, ◌<>◌, List, [], ◌∷◌, ◌++◌, Option, none, some, Bool, true, false,
}
use openshell_driver_lxd.Common.{
  not, ◌&&◌, ◌||◌, ◌==◌, nat_eq, string_eq, if◌then◌else◌, contains, length, drop,
}
use openshell_driver_lxd.Common.Text.{is_empty, before_first, after_last}
use openshell_driver_lxd.Common.Dict.{Dict, lookup, contains_key, insert, erase, extend}
use openshell_driver_lxd.Lxd.{Lxd, get_instance, list_instances}
use openshell_driver_lxd.Lxd.Types.{LxdError, Result, ok, err, Instance}
use openshell_driver_lxd.Lxd.Actions.{Action, pure, ◌>>=◌, try_send}
use openshell_driver_lxd.Mapping.{Observation, key_sandbox_id, instance_to_driver_sandbox_live}

-- The fields `action`, `name` and `source` where they are texts, and the metadata printed as JSON.
pub record Metadata : Type 0 where
  pub text : String
  pub action : Option String
  pub name : Option String
  pub source : Option String

-- `LxdEvent`
pub record Event : Type 0 where
  pub timestamp : String
  pub metadata : Metadata

-- `grpc::WatchEvent`
pub data WatchEvent : Type 0 where
  sandbox : Observation → WatchEvent
  deleted : String → WatchEvent

abbrev pub watched_actions : List String
watched_actions =
    "instance-created" ∷ "instance-started" ∷ "instance-shutdown" ∷ "instance-stopped"
    ∷ "instance-restarted" ∷ "instance-paused" ∷ "instance-resumed" ∷ []

abbrev pub deleted_action : String
deleted_action = "instance-deleted"

abbrev pub recent_events : ℕ
recent_events = 64

abbrev pub event_key : Event → String
event_key event = event.timestamp <> (" " <> event.metadata.text)

-- `RecentEvents`: the keys, the oldest one first.
unfoldable pub first_sighting : List String → Event → Bool × List String
first_sighting keys event = if contains keys (event_key event) then (false, keys) else (
  true,
  (if length keys == recent_events then drop 1 keys else keys) ++ (event_key event ∷ []),
)

abbrev nonempty : String → Option String
nonempty s = if is_empty s then none else some s

abbrev from_source : Option String → Option String
from_source none = none
from_source (some source) = nonempty (after_last b'/' (before_first b'?' source))

unfoldable pub instance_name : Metadata → Option String
instance_name m = elim m.name [
  | none ↦ from_source m.source
  | some name ↦ if is_empty name then from_source m.source else some name
]

-- `managed_sandbox_ids` on the listed instances: collected into a map, in their order.
unfoldable pub sandbox_ids : Dict String → List Instance → Dict String
sandbox_ids ids [] = ids
sandbox_ids ids (i ∷ is) = elim (lookup key_sandbox_id i.config) [
  | none ↦ sandbox_ids ids is
  | some id ↦ sandbox_ids (insert i.name id ids) is
]

-- `retain` of `reconcile_and_seed_sandbox_ids`: the entries that stay, and the ids of the others.
unfoldable pub retain : Dict String → Dict String → Dict String → Dict String × List String
retain [] pre_ids post_ids = ([], [])
retain ((name, id) ∷ known) pre_ids post_ids =
    let (stay, gone) = retain known pre_ids post_ids in
    if not (contains_key pre_ids name) && not (contains_key post_ids name)
    then (stay, id ∷ gone)
    else ((name, id) ∷ stay, gone)

-- The known ids afterwards, and those deleted during the gap.
unfoldable pub reconcile_and_seed_sandbox_ids :
    Dict String → Dict String → Dict String → Dict String × List String
reconcile_and_seed_sandbox_ids known pre_ids post_ids =
    let (stay, gone) = retain known pre_ids post_ids in
    (extend (extend stay pre_ids) post_ids, gone)

-- What the watcher knows and has sent, the last one first.
pub record Watcher : Type 0 where
  pub known : Dict String
  pub recent : List String
  pub sent : List WatchEvent

-- A deletion event.
unfoldable pub forget : Watcher → String → Watcher
forget w name = elim (lookup name w.known) [
  | none ↦ w
  | some id ↦ record w { known = erase name w.known; sent = deleted id ∷ w.sent }
]

-- The deletions sent for the ids of the gap, in their order.
abbrev pub send_deleted : List String → List WatchEvent → List WatchEvent
send_deleted [] sent = sent
send_deleted (id ∷ ids) sent = send_deleted ids (deleted id ∷ sent)

module _ (debug : String → String) where
  -- The instance read for a watched action.
  unfoldable pub observe : Watcher → String → Result LxdError Instance → Watcher
  observe w name (err e) = w
  observe w name (ok i) = elim (lookup key_sandbox_id i.config) [
    | none ↦ w
    | some id ↦ record w {
      known = insert name id w.known;
      sent = sandbox (instance_to_driver_sandbox_live debug i) ∷ w.sent;
    }
  ]

module _ (debug : String → String) (L : Lxd) where
  unfoldable pub act : Watcher → String → String → Action L Watcher
  act w action name =
      if action == deleted_action
      then pure (forget w name)
      else if not (contains watched_actions action)
      then pure w
      else do r ← try_send (get_instance name); pure (observe debug w name r)

  abbrev pub act_on : Watcher → Option String → Option String → Action L Watcher
  act_on w (some action) (some name) = act w action name
  act_on w _ _ = pure w

  -- One turn of the loop of `run_once`.
  unfoldable pub handle : Watcher → Event → Action L Watcher
  handle w event =
      let (first, keys) = first_sighting w.recent event in
      if not first
      then pure w
      else act_on (record w { recent = keys }) event.metadata.action (instance_name event.metadata)

  -- The loop, until the stream ends or yields an error.
  unfoldable pub handle_all :
      Watcher → List (Result LxdError Event) → Action L (Watcher × Option LxdError)
  handle_all w [] = pure (w, none)
  handle_all w (err e ∷ events) = pure (w, some e)
  handle_all w (ok event ∷ events) = do v ← handle w event; handle_all v events

  -- Once subscribed: the second listing, and the state that the loop starts from.
  abbrev seed : Dict String → Dict String → Watcher → Watcher
  seed pre_ids post_ids w =
      let (known, gone) = reconcile_and_seed_sandbox_ids w.known pre_ids post_ids in
      record { known = known; recent = []; sent = send_deleted gone w.sent }

  abbrev after_post :
      Watcher
      → List (Result LxdError Event)
      → List Instance
      → Result LxdError (List Instance)
      → Action L (Watcher × Option LxdError)
  after_post w events pre (err e) = pure (w, some e)
  after_post w events pre (ok post) =
      handle_all (seed (sandbox_ids [] pre) (sandbox_ids [] post) w) events

  abbrev after_pre :
      Watcher
      → Result LxdError (List (Result LxdError Event))
      → Result LxdError (List Instance)
      → Action L (Watcher × Option LxdError)
  after_pre w stream (err e) = pure (w, some e)
  after_pre w (err e) (ok pre) = pure (w, some e)
  after_pre w (ok events) (ok pre) = do r ← try_send list_instances; after_post w events pre r

  -- `run_once`, given what the subscription yields.
  unfoldable pub run_once :
      Watcher
      → Result LxdError (List (Result LxdError Event))
      → Action L (Watcher × Option LxdError)
  run_once w stream = do r ← try_send list_instances; after_pre w stream r
