-- ===== src/Lxd/Operations.antt =====
-- crates/lxd-client/src/operations.rs: `wait_operation`, with `reconcile_operation` and
-- `wait_operation_rest`. A wait is in a stage, in which it has asked LXD for one thing, and goes to the
-- next stage when that is answered.
pub mod Answers
pub mod Ends
pub mod Waiting
use openshell_driver_lxd.Common.{
  ℕ, String, ◌<>◌, Option, none, some, Bool, true, false, ◌||◌, ◌&&◌, not, ◌==◌, nat_eq, string_eq,
  if◌then◌else◌,
}
use openshell_driver_lxd.Common.Text.{is_empty}
use openshell_driver_lxd.Lxd.{is_missing}
use openshell_driver_lxd.Lxd.Types.{
  LxdError, Result, ok, err, Operation, OperationStatus, success, failure, cancelled,
}
use openshell_driver_lxd.Lxd.Types

-- What an event says, where its metadata has the fields as texts.
pub record OperationEvent : Type 0 where
  pub type_ : String
  pub id : Option String
  pub status : Option String
  pub description : Option String
  pub err : Option String

-- What the wait has asked for: the event subscription, the operation while it connected, the next
-- event, the operation after the stream, the operation after a success event, the REST long-poll, the
-- operation after the long-poll broke off.
pub data Stage : Type 0 where
  subscribing reconciling draining reconciling_again fetching long_polling long_poll_broken : Stage
  finished : Result LxdError Operation → Stage

-- What answers it. The stream of events may end.
abbrev pub Answer : Stage → Type 0
Answer subscribing = Result LxdError (Unit {0})
Answer reconciling = Result LxdError Operation
Answer draining = Option (Result LxdError OperationEvent)
Answer reconciling_again = Result LxdError Operation
Answer fetching = Result LxdError Operation
Answer long_polling = Result LxdError Operation
Answer long_poll_broken = Result LxdError Operation
Answer (finished r) = ⊥

abbrev pub is_success : OperationStatus → Bool
is_success success = true
is_success _ = false

abbrev pub is_failure : OperationStatus → Bool
is_failure failure = true
is_failure cancelled = true
is_failure _ = false

-- `Failure`, `Cancelled`, or an error that is not empty.
abbrev pub has_failed : Operation → Bool
has_failed op = is_failure op.status || not (is_empty op.err)

abbrev pub failed_with : Operation → Result LxdError Operation
failed_with op = err (Types.operation_failed op.description op.err)

abbrev pub on_subscription : Result LxdError (Unit {0}) → Stage
on_subscription (ok _) = reconciling
on_subscription (err (Types.io e)) = long_polling
on_subscription (err (Types.web_socket e)) = long_polling
on_subscription (err e) = finished (err e)

-- `reconcile_operation`, where `Reconciled::Pending` goes on to a stage.
abbrev pub reconcile_operation : Stage → Result LxdError Operation → Stage
reconcile_operation go_on (ok op) =
    if is_success op.status
    then finished (ok op)
    else if has_failed op
    then finished (failed_with op)
    else go_on
reconcile_operation go_on (err (Types.io e)) = go_on
reconcile_operation go_on (err (Types.hyper e)) = go_on
reconcile_operation go_on (err e) = finished (err e)

abbrev pub or_empty : Option String → String
or_empty none = ""
or_empty (some s) = s

-- `OperationStatus::from_str`
unfoldable pub parse_status : String → OperationStatus
parse_status s =
    if s == "Pending"
    then OperationStatus.pending
    else if s == "Running"
    then OperationStatus.running
    else if s == "Success"
    then success
    else if s == "Failure"
    then failure
    else if s == "Cancelled"
    then cancelled
    else OperationStatus.other s

-- LXD emits the id as either a bare UUID or the full path.
abbrev pub is_about : String → Option String → Bool
is_about id none = false
is_about id (some event_id) = event_id == id || event_id == "/1.0/operations/" <> id

abbrev pub on_status : OperationEvent → OperationStatus → Stage
on_status event success = fetching
on_status event failure =
    finished (err (Types.operation_failed (or_empty event.description) (or_empty event.err)))
on_status event cancelled =
    finished (err (Types.operation_failed (or_empty event.description) (or_empty event.err)))
on_status event _ = draining

abbrev pub event_status : OperationEvent → OperationStatus
event_status event = parse_status (or_empty event.status)

-- An event of this operation.
abbrev pub is_own : String → OperationEvent → Bool
is_own id event = event.type_ == "operation" && is_about id event.id

abbrev pub on_event : String → Option (Result LxdError OperationEvent) → Stage
on_event id none = reconciling_again
on_event id (some (ok event)) =
    if is_own id event then on_status event (event_status event) else draining
on_event id (some (err (Types.io e))) = reconciling_again
on_event id (some (err (Types.web_socket e))) = reconciling_again
on_event id (some (err (Types.json e))) = draining
on_event id (some (err e)) = finished (err e)

abbrev pub on_long_poll : Result LxdError Operation → Stage
on_long_poll (ok op) = if has_failed op then finished (failed_with op) else finished (ok op)
on_long_poll (err (Types.io e)) = long_poll_broken
on_long_poll (err (Types.hyper e)) = long_poll_broken
on_long_poll (err e) = finished (err e)

abbrev pub purged : String → LxdError
purged id = Types.api 404 ("operation " <> (id <> " not found (purged by LXD)"))

abbrev pub on_broken : String → Result LxdError Operation → Stage
on_broken id (ok op) =
    if is_success op.status
    then finished (ok op)
    else if has_failed op
    then finished (failed_with op)
    else long_polling
on_broken id (err (Types.io e)) = long_polling
on_broken id (err (Types.hyper e)) = long_polling
on_broken id (err e) = if is_missing e then finished (err (purged id)) else finished (err e)

-- The stage after an answer, in the wait for the operation `id`.
unfoldable pub on : String → (t : Stage) → Answer t → Stage
on id subscribing answer = on_subscription answer
on id reconciling answer = reconcile_operation draining answer
on id draining answer = on_event id answer
on id reconciling_again answer = reconcile_operation subscribing answer
on id fetching answer = finished answer
on id long_polling answer = on_long_poll answer
on id long_poll_broken answer = on_broken id answer
on id (finished r) answer = elim answer [ ]

-- A wait from its start on, with the answers that it got.
pub data WaitOperation (id : String) : Stage → Type 0 where
  start : WaitOperation id subscribing
  next : {t : Stage} → WaitOperation id t → (answer : Answer t) → WaitOperation id (on id t answer)
