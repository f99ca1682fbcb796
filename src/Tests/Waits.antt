-- ===== src/Tests/Waits.antt =====
-- The theorems on the wait for an operation and on the files of an instance, at concrete inputs.
use openshell_driver_lxd.Common.{refl, ◌==◌, string_eq, if◌then◌else◌, [], ◌∷◌, none, some}
use openshell_driver_lxd.Lxd.Types.{ok, err, api, Operation, OperationStatus}
use openshell_driver_lxd.Lxd.Operations.{
  OperationEvent, draining, fetching, finished, WaitOperation, start, next, on, parse_status,
}
use openshell_driver_lxd.Lxd.Operations.Answers.{Open, Everywhere}
use openshell_driver_lxd.Lxd.Operations.Ends.{EndsWell, wait_operation-ok}
use openshell_driver_lxd.Lxd.Operations.Waiting.{wait_operation-Open}
use openshell_driver_lxd.Lxd.Files.{directory, file, Guest, push_file_into_instance}
use openshell_driver_lxd.Lxd.Files.Order.{Pushes, push_file_into_instance-Pushes}

abbrev operation : OperationStatus → Operation
operation status = record { id = "op"; description = "starting"; status = status; err = "" }

abbrev success_event : OperationEvent
success_event = record {
  type_ = "operation";
  id = some "/1.0/operations/op";
  status = some "Success";
  description = none;
  err = none;
}

abbrev drained : WaitOperation "op" draining
unfolding on
drained = next (next start (ok tt)) (ok (operation OperationStatus.running))

abbrev fetched : WaitOperation "op" fetching
unfolding on parse_status
fetched = next {t = draining} drained (some (ok success_event))

abbrev fetched_whole : WaitOperation "op" (finished (ok (operation OperationStatus.success)))
unfolding on
fetched_whole = next {t = fetching} fetched (ok (operation OperationStatus.success))

wait_operation-Open_example : Everywhere (Open "op") fetched
wait_operation-Open_example = wait_operation-Open "op" fetching fetched refl

wait_operation-ok_example : EndsWell "op" (operation OperationStatus.success) fetched_whole
wait_operation-ok_example =
    wait_operation-ok "op" (operation OperationStatus.success)
      (finished (ok (operation OperationStatus.success))) fetched_whole refl

-- A guest in which `/etc` is there already, and every other post succeeds.
abbrev guest : Guest
guest = record {
  State = Unit;
  post = λ p s. elim p [
    | directory path ↦ (if path == "/etc" then err (api 400 "exists") else ok tt, s)
    | file path content ↦ (ok tt, s)
  ];
  get_type = λ path s. (ok (some "directory"), s);
}

push_file_into_instance-Pushes_example :
    Pushes guest "/etc/sandbox/token"
      (1 ∷ [])
      (record { state = tt; posts = [] })
      (push_file_into_instance guest "/etc/sandbox/token"
        (1 ∷ [])
        (record { state = tt; posts = [] }))
push_file_into_instance-Pushes_example =
    push_file_into_instance-Pushes guest "/etc/sandbox/token" (1 ∷ [])
      (record { state = tt; posts = [] })
