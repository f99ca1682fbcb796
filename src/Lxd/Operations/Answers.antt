-- ===== src/Lxd/Operations/Answers.antt =====
-- crates/lxd-client/src/operations.rs: the answers that a wait gets, and what they lead to.
use openshell_driver_lxd.Common.{
  ◌≡◌, refl, String, Option, none, some, Bool, true, false, ◌&&◌, ◌⊎◌, inl, inr, Bool-cases,
  if◌then◌else◌, string_eq,
}
use openshell_driver_lxd.Lxd.{is_missing}
use openshell_driver_lxd.Lxd.Types.{
  LxdError, Result, ok, err, Operation, OperationStatus, success, failure, cancelled,
}
use openshell_driver_lxd.Lxd.Types
use openshell_driver_lxd.Lxd.Operations.{
  OperationEvent, Stage, subscribing, reconciling, draining, reconciling_again, fetching,
  long_polling, long_poll_broken, finished, Answer, is_success, is_failure, has_failed, failed_with,
  reconcile_operation, is_own, event_status, purged, on_broken, WaitOperation, start, next,
}

-- An answer that gives an operation.
abbrev pub Gives : Operation → (t : Stage) → Answer t → Type 0
Gives op subscribing a = ⊥
Gives op reconciling a = a ≡ ok op
Gives op draining a = ⊥
Gives op reconciling_again a = a ≡ ok op
Gives op fetching a = a ≡ ok op
Gives op long_polling a = a ≡ ok op
Gives op long_poll_broken a = a ≡ ok op
Gives op (finished r) a = ⊥

-- The long-poll's answer.
abbrev pub LongPolled : Operation → (t : Stage) → Answer t → Type 0
LongPolled op long_polling a = a ≡ ok op
LongPolled op _ a = ⊥

-- An event of the operation that says `Success`.
abbrev pub SaysSuccess : String → (t : Stage) → Answer t → Type 0
SaysSuccess id draining (some (ok event)) =
    (is_own id event ≡ true) × (event_status event ≡ success)
SaysSuccess id _ a = ⊥

-- Some answer of a wait, and every answer of it.
abbrev pub Somewhere :
    {id : String} {t : Stage} → ((t : Stage) → Answer t → Type 0) → WaitOperation id t → Type 0
Somewhere P start = ⊥
Somewhere P (next {t} w a) = P t a ⊎ Somewhere P w

abbrev pub Everywhere :
    {id : String} {t : Stage} → ((t : Stage) → Answer t → Type 0) → WaitOperation id t → Type 0
Everywhere P start = Unit
Everywhere P (next {t} w a) = P t a × Everywhere P w

-- A lost connection.
abbrev pub is_lost : LxdError → Bool
is_lost (Types.io e) = true
is_lost (Types.hyper e) = true
is_lost _ = false

abbrev pub is_cut : LxdError → Bool
is_cut (Types.io e) = true
is_cut (Types.web_socket e) = true
is_cut _ = false

-- What a wait may go on after: an operation that is not at its end, or a lost connection.
abbrev pub OpenOperation : Result LxdError Operation → Type 0
OpenOperation (ok op) = (is_success op.status ≡ false) × (has_failed op ≡ false)
OpenOperation (err e) = is_lost e ≡ true

abbrev pub OpenEvent : String → Option (Result LxdError OperationEvent) → Type 0
OpenEvent id none = Unit
OpenEvent id (some (ok event)) = (is_own id event && is_failure (event_status event)) ≡ false
OpenEvent id (some (err (Types.json e))) = Unit
OpenEvent id (some (err e)) = is_cut e ≡ true

abbrev pub OpenSubscription : Result LxdError (Unit {0}) → Type 0
OpenSubscription (ok _) = Unit
OpenSubscription (err e) = is_cut e ≡ true

abbrev pub Lost : Result LxdError Operation → Type 0
Lost (ok op) = ⊥
Lost (err e) = is_lost e ≡ true

abbrev pub Open : String → (t : Stage) → Answer t → Type 0
Open id subscribing a = OpenSubscription a
Open id reconciling a = OpenOperation a
Open id draining a = OpenEvent id a
Open id reconciling_again a = OpenOperation a
Open id fetching a = ⊥
Open id long_polling a = Lost a
Open id long_poll_broken a = OpenOperation a
Open id (finished r) a = ⊥

-- The stages after an answer with the operation.
pub data Reconciled (go_on : Stage) (a : Result LxdError Operation) : Stage → Type 0 where
  ended :
      (op : Operation)
      → a ≡ ok op
      → is_success op.status ≡ true
      → Reconciled go_on a (finished (ok op))
  gave_up : (e : LxdError) → Reconciled go_on a (finished (err e))
  goes_on : OpenOperation a → Reconciled go_on a go_on

pub reconcile_ok :
    (go_on : Stage) (op : Operation)
    → Reconciled go_on (ok op) (
        if is_success op.status
        then finished (ok op)
        else if has_failed op
        then finished (failed_with op)
        else go_on)
reconcile_ok go_on op = elim (Bool-cases (is_success op.status)) [
  | inl f ↦ rw f (ended op refl f)
  | inr f ↦ rw f (elim (Bool-cases (has_failed op)) [
    | inl g ↦ rw g (gave_up (Types.operation_failed op.description op.err))
    | inr g ↦ rw g (goes_on (f, g))
  ])
]

pub reconcile_operation-Reconciled :
    (go_on : Stage) (a : Result LxdError Operation)
    → Reconciled go_on a (reconcile_operation go_on a)
reconcile_operation-Reconciled go_on (ok op) = reconcile_ok go_on op
reconcile_operation-Reconciled go_on (err (Types.io e)) = goes_on refl
reconcile_operation-Reconciled go_on (err (Types.hyper e)) = goes_on refl
reconcile_operation-Reconciled go_on (err e) = gave_up e

pub on_broken-Reconciled :
    (id : String) (a : Result LxdError Operation) → Reconciled long_polling a (on_broken id a)
on_broken-Reconciled id (ok op) = reconcile_ok long_polling op
on_broken-Reconciled id (err (Types.io e)) = goes_on refl
on_broken-Reconciled id (err (Types.hyper e)) = goes_on refl
on_broken-Reconciled id (err (Types.api c m)) = elim (Bool-cases (is_missing (Types.api c m))) [
  | inl f ↦ rw f (gave_up (purged id))
  | inr f ↦ rw f (gave_up (Types.api c m))
]
on_broken-Reconciled id (err e) = gave_up e

abbrev pub is_finished : Stage → Bool
is_finished (finished r) = true
is_finished _ = false

pub Reconciled-ok :
    {go_on u : Stage} {a : Result LxdError Operation} (op : Operation)
    → Reconciled go_on a u
    → is_finished go_on ≡ false
    → u ≡ finished (ok op)
    → (a ≡ ok op) × (is_success op.status ≡ true)
Reconciled-ok op (ended op' e s) f h = (cc (h, e), cc (h, s))
Reconciled-ok op (gave_up e) f h = cc (h)
Reconciled-ok op (goes_on o) f h = cc (f, h)

pub Reconciled-open :
    {go_on u : Stage} {a : Result LxdError Operation}
    → Reconciled go_on a u
    → is_finished u ≡ false
    → OpenOperation a
Reconciled-open (ended op e s) h = cc (h)
Reconciled-open (gave_up e) h = cc (h)
Reconciled-open (goes_on o) h = o
