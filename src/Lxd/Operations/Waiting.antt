-- ===== src/Lxd/Operations/Waiting.antt =====
-- crates/lxd-client/src/operations.rs: a wait that goes on.
use openshell_driver_lxd.Common.{
  ◌≡◌, refl, String, Option, none, some, false, inl, inr, Bool-cases, string_eq,
}
use openshell_driver_lxd.Lxd.Types.{
  LxdError, Result, ok, err, Operation, OperationStatus, success, failure, cancelled,
}
use openshell_driver_lxd.Lxd.Types
use openshell_driver_lxd.Lxd.Operations.{
  OperationEvent, Stage, subscribing, reconciling, draining, reconciling_again, fetching,
  long_polling, long_poll_broken, finished, Answer, is_failure, has_failed, on_subscription, is_own,
  on_status, event_status, on_event, on_long_poll, on, WaitOperation, start, next,
}
use openshell_driver_lxd.Lxd.Operations.Answers.{
  Everywhere, OpenEvent, OpenSubscription, Lost, Open, reconcile_operation-Reconciled,
  on_broken-Reconciled, is_finished, Reconciled-open,
}

module _ (id : String) where
  status-open :
      (event : OperationEvent) (status : OperationStatus)
      → is_finished (on_status event status) ≡ false
      → is_failure status ≡ false
  status-open event success h = refl
  status-open event failure h = cc (h)
  status-open event cancelled h = cc (h)
  status-open event OperationStatus.pending h = refl
  status-open event OperationStatus.running h = refl
  status-open event (OperationStatus.other s) h = refl

  event-open :
      (a : Option (Result LxdError OperationEvent))
      → is_finished (on_event id a) ≡ false
      → OpenEvent id a
  event-open none h = tt
  event-open (some (ok event)) h = elim (Bool-cases (is_own id event)) [
    | inl f ↦ rw f (status-open event (event_status event) (rw f at h))
    | inr f ↦ rw f refl
  ]
  event-open (some (err (Types.io e))) h = refl
  event-open (some (err (Types.web_socket e))) h = refl
  event-open (some (err (Types.json e))) h = tt
  event-open (some (err e)) h = cc (h)

  subscription-open :
      (a : Result LxdError (Unit {0}))
      → is_finished (on_subscription a) ≡ false
      → OpenSubscription a
  subscription-open (ok u) h = tt
  subscription-open (err (Types.io e)) h = refl
  subscription-open (err (Types.web_socket e)) h = refl
  subscription-open (err e) h = cc (h)

  long_poll-open : (a : Result LxdError Operation) → is_finished (on_long_poll a) ≡ false → Lost a
  long_poll-open (ok op) h = elim (Bool-cases (has_failed op)) [
    | inl f ↦ cc (rw f at h)
    | inr f ↦ cc (rw f at h)
  ]
  long_poll-open (err (Types.io e)) h = refl
  long_poll-open (err (Types.hyper e)) h = refl
  long_poll-open (err e) h = cc (h)

  on-Open : (t : Stage) (a : Answer t) → is_finished (on id t a) ≡ false → Open id t a
  unfolding on
  on-Open subscribing a h = subscription-open a h
  on-Open reconciling a h = Reconciled-open (reconcile_operation-Reconciled draining a) h
  on-Open draining a h = event-open a h
  on-Open reconciling_again a h = Reconciled-open (reconcile_operation-Reconciled subscribing a) h
  on-Open fetching a h = cc (h)
  on-Open long_polling a h = long_poll-open a h
  on-Open long_poll_broken a h = Reconciled-open (on_broken-Reconciled id a) h
  on-Open (finished r) a h = elim a [ ]

  unfinished : (t : Stage) → Answer t → is_finished t ≡ false
  unfinished subscribing a = refl
  unfinished reconciling a = refl
  unfinished draining a = refl
  unfinished reconciling_again a = refl
  unfinished fetching a = refl
  unfinished long_polling a = refl
  unfinished long_poll_broken a = refl
  unfinished (finished r) a = elim a [ ]

-- A wait that is not at its end has had no answer that ends it: every operation that it got had
-- neither succeeded nor failed, no event said that the operation has failed, the long-poll gave none,
-- and every error was a lost connection, or an event that could not be read.
pub wait_operation-Open :
    (id : String) (t : Stage) (w : WaitOperation id t)
    → is_finished t ≡ false
    → Everywhere (Open id) w
wait_operation-Open id t start h = tt
wait_operation-Open id t (next {t = s} w a) h =
    (on-Open id s a h, wait_operation-Open id s w (unfinished id s a))
