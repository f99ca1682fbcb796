-- ===== src/Lxd/Operations/Ends.antt =====
-- crates/lxd-client/src/operations.rs: a wait that returns an operation.
use openshell_driver_lxd.Common.{
  ◌≡◌, refl, String, Option, none, some, true, false, ◌⊎◌, inl, inr, Bool-cases, string_eq,
}
use openshell_driver_lxd.Lxd.Types.{
  LxdError, Result, ok, err, Operation, OperationStatus, success, failure, cancelled,
}
use openshell_driver_lxd.Lxd.Types
use openshell_driver_lxd.Lxd.Operations.{
  OperationEvent, Stage, subscribing, reconciling, draining, reconciling_again, fetching,
  long_polling, long_poll_broken, finished, Answer, is_success, has_failed, on_subscription, is_own,
  on_status, event_status, on_event, on_long_poll, on, WaitOperation, start, next,
}
use openshell_driver_lxd.Lxd.Operations.Answers.{
  ended, gave_up, goes_on, Gives, LongPolled, SaysSuccess, Somewhere, Reconciled,
  reconcile_operation-Reconciled, on_broken-Reconciled, Reconciled-ok,
}

module _ (id : String) where
  on_status-fetching :
      (event : OperationEvent) (status : OperationStatus)
      → on_status event status ≡ fetching
      → status ≡ success
  on_status-fetching event success e = refl
  on_status-fetching event failure e = cc (e)
  on_status-fetching event cancelled e = cc (e)
  on_status-fetching event OperationStatus.pending e = cc (e)
  on_status-fetching event OperationStatus.running e = cc (e)
  on_status-fetching event (OperationStatus.other s) e = cc (e)

  -- A stage with an operation ends the wait well, or the success event came before it, or the
  -- long-poll gave an operation that has not failed.
  abbrev Well : Operation → {t : Stage} → WaitOperation id t → Answer t → Type 0
  Well op {t} w a =
      Gives op t a
      × ((is_success op.status ≡ true)
          ⊎ (Somewhere (SaysSuccess id) w ⊎ (LongPolled op t a × (has_failed op ≡ false))))

  subscription-not_ok :
      (op : Operation) (a : Result LxdError (Unit {0})) → ¬ (on_subscription a ≡ finished (ok op))
  subscription-not_ok op (ok u) h = cc (h)
  subscription-not_ok op (err (Types.io e)) h = cc (h)
  subscription-not_ok op (err (Types.web_socket e)) h = cc (h)
  subscription-not_ok op (err e) h = cc (h)

  status-not_ok :
      (op : Operation) (event : OperationEvent) (status : OperationStatus)
      → ¬ (on_status event status ≡ finished (ok op))
  status-not_ok op event success h = cc (h)
  status-not_ok op event failure h = cc (h)
  status-not_ok op event cancelled h = cc (h)
  status-not_ok op event _ h = cc (h)

  event-not_ok :
      (op : Operation) (a : Option (Result LxdError OperationEvent))
      → ¬ (on_event id a ≡ finished (ok op))
  event-not_ok op none h = cc (h)
  event-not_ok op (some (ok event)) h = elim (Bool-cases (is_own id event)) [
    | inl f ↦ status-not_ok op event (event_status event) (rw f at h)
    | inr f ↦ cc (rw f at h)
  ]
  event-not_ok op (some (err (Types.io e))) h = cc (h)
  event-not_ok op (some (err (Types.web_socket e))) h = cc (h)
  event-not_ok op (some (err (Types.json e))) h = cc (h)
  event-not_ok op (some (err e)) h = cc (h)

  long_poll-ok :
      (op : Operation) (a : Result LxdError Operation)
      → on_long_poll a ≡ finished (ok op)
      → (a ≡ ok op) × (has_failed op ≡ false)
  long_poll-ok op (ok op') h = elim (Bool-cases (has_failed op')) [
    | inl f ↦ cc (rw f at h)
    | inr f ↦ let e = rw f at h in (cc (e), cc (e, f))
  ]
  long_poll-ok op (err (Types.io e)) h = cc (h)
  long_poll-ok op (err (Types.hyper e)) h = cc (h)
  long_poll-ok op (err e) h = cc (h)

  -- Only a success event leads to the stage that fetches the operation.
  event-fetching :
      (a : Option (Result LxdError OperationEvent))
      → on_event id a ≡ fetching
      → SaysSuccess id draining a
  event-fetching none h = cc (h)
  event-fetching (some (ok event)) h = elim (Bool-cases (is_own id event)) [
    | inl f ↦ (f, on_status-fetching event (event_status event) (rw f at h))
    | inr f ↦ cc (rw f at h)
  ]
  event-fetching (some (err (Types.io e))) h = cc (h)
  event-fetching (some (err (Types.web_socket e))) h = cc (h)
  event-fetching (some (err (Types.json e))) h = cc (h)
  event-fetching (some (err e)) h = cc (h)

  subscription-not_fetching : (a : Result LxdError (Unit {0})) → ¬ (on_subscription a ≡ fetching)
  subscription-not_fetching (ok u) h = cc (h)
  subscription-not_fetching (err (Types.io e)) h = cc (h)
  subscription-not_fetching (err (Types.web_socket e)) h = cc (h)
  subscription-not_fetching (err e) h = cc (h)

  Reconciled-not_fetching :
      {go_on u : Stage} {a : Result LxdError Operation}
      → Reconciled go_on a u
      → ¬ (go_on ≡ fetching)
      → ¬ (u ≡ fetching)
  Reconciled-not_fetching (ended op e s) f h = cc (h)
  Reconciled-not_fetching (gave_up e) f h = cc (h)
  Reconciled-not_fetching (goes_on o) f h = f h

  long_poll-not_fetching : (a : Result LxdError Operation) → ¬ (on_long_poll a ≡ fetching)
  long_poll-not_fetching (ok op) h = elim (Bool-cases (has_failed op)) [
    | inl f ↦ cc (rw f at h)
    | inr f ↦ cc (rw f at h)
  ]
  long_poll-not_fetching (err (Types.io e)) h = cc (h)
  long_poll-not_fetching (err (Types.hyper e)) h = cc (h)
  long_poll-not_fetching (err e) h = cc (h)

  on-fetching : (t : Stage) (a : Answer t) → on id t a ≡ fetching → SaysSuccess id t a
  unfolding on
  on-fetching subscribing a h = subscription-not_fetching a h
  on-fetching reconciling a h =
      Reconciled-not_fetching (reconcile_operation-Reconciled draining a) (λ e. cc (e)) h
  on-fetching draining a h = event-fetching a h
  on-fetching reconciling_again a h =
      Reconciled-not_fetching (reconcile_operation-Reconciled subscribing a) (λ e. cc (e)) h
  on-fetching fetching a h = cc (h)
  on-fetching long_polling a h = long_poll-not_fetching a h
  on-fetching long_poll_broken a h =
      Reconciled-not_fetching (on_broken-Reconciled id a) (λ e. cc (e)) h
  on-fetching (finished r) a h = elim a [ ]

  fetching-heard :
      {t : Stage} (w : WaitOperation id t) → t ≡ fetching → Somewhere (SaysSuccess id) w
  fetching-heard start h = cc (h)
  fetching-heard (next {t} w a) h = inl (on-fetching t a h)

  on-Well :
      (op : Operation) (t : Stage) (w : WaitOperation id t) (a : Answer t)
      → on id t a ≡ finished (ok op)
      → Well op w a
  unfolding on
  on-Well op subscribing w a h = elim (subscription-not_ok op a h) [ ]
  on-Well op reconciling w a h =
      let (given, s) = Reconciled-ok op (reconcile_operation-Reconciled draining a) refl h in
      (given, inl s)
  on-Well op draining w a h = elim (event-not_ok op a h) [ ]
  on-Well op reconciling_again w a h =
      let (given, s) = Reconciled-ok op (reconcile_operation-Reconciled subscribing a) refl h in
      (given, inl s)
  on-Well op fetching w a h = (cc (h), inr (inl (fetching-heard w refl)))
  on-Well op long_polling w a h =
      let (given, s) = long_poll-ok op a h in (given, inr (inr (given, s)))
  on-Well op long_poll_broken w a h =
      let (given, s) = Reconciled-ok op (on_broken-Reconciled id a) refl h in (given, inl s)
  on-Well op (finished r) w a h = elim a [ ]

  -- How a wait has come to an operation.
  abbrev pub EndsWell : Operation → {t : Stage} → WaitOperation id t → Type 0
  EndsWell op w =
      Somewhere (Gives op) w
      × ((is_success op.status ≡ true)
          ⊎ (Somewhere (SaysSuccess id) w
              ⊎ (Somewhere (LongPolled op) w × (has_failed op ≡ false))))

  Well-EndsWell :
      (op : Operation) {t : Stage} (w : WaitOperation id t) (a : Answer t)
      → Well op w a
      → EndsWell op (next w a)
  Well-EndsWell op w a (given, inl s) = (inl given, inl s)
  Well-EndsWell op w a (given, inr (inl heard)) = (inl given, inr (inl (inr heard)))
  Well-EndsWell op w a (given, inr (inr (polled, sound))) =
      (inl given, inr (inr (inl polled, sound)))

-- Whatever LXD answers and in whatever order: a wait that returns an operation got it from LXD, and
-- it has the status `Success`, or an event of the operation has said `Success` before, or the REST
-- long-poll has answered with it and it has not failed.
pub wait_operation-ok :
    (id : String) (op : Operation) (t : Stage) (w : WaitOperation id t)
    → t ≡ finished (ok op)
    → EndsWell id op w
wait_operation-ok id op t start h = cc (h)
wait_operation-ok id op t (next {t = s} w a) h = Well-EndsWell id op w a (on-Well id op s w a h)
