-- ===== src/Mapping/Condition.antt =====
-- crates/openshell-driver-lxd/src/mapping.rs: the reasons that the gateway keys its behaviour on.
use openshell_driver_lxd.Common.{
  String, ◌≡◌, ◌∙◌, refl, ap, arith, Bool, true, false, Bool-cases, inl, inr, ◌==◌, string_eq,
  eq_iff, Option, none, some, ◌&&◌, ◌||◌, if◌then◌else◌,
}
use openshell_driver_lxd.Common.Text.{eq_excludes}
use openshell_driver_lxd.Common.Dict.{lookup, contains_key}
use openshell_driver_lxd.Lxd.Types.{Instance}
use openshell_driver_lxd.Mapping.{
  StopSeen, discovered, live, is_discovered, Arm, arm, ready_condition, stopped_by_the_runtime,
  reason_text, status_text,
}
use openshell_driver_lxd.Mapping.{ready, created, stopped, runtime_restart, exited}
use openshell_driver_lxd.Mapping.{
  key_stop_intent, key_last_power, condition_runtime_restart, condition_stopped, condition_exited,
  condition_created,
}

abbrev is_runtime_restart : Arm → Bool
is_runtime_restart runtime_restart = true
is_runtime_restart _ = false

-- The reason names the arm.
reason-runtime_restart :
    (a : Arm) → (reason_text a == condition_runtime_restart) ≡ is_runtime_restart a
reason-runtime_restart runtime_restart = refl
reason-runtime_restart _ = refl

module _ (i : Instance) where
  arm-discovered : is_runtime_restart (arm i discovered) ≡ stopped_by_the_runtime i
  unfolding arm stopped_by_the_runtime
  arm-discovered = elim (Bool-cases (i.status == "Stopped")) [
    | inl down ↦ ground (
      arith,
      eq_excludes i.status "Stopped" "Running" down refl,
      eq_excludes i.status "Stopped" "Ready" down refl,
    )
    | inr up ↦ ground arith
  ]

  arm-live : is_runtime_restart (arm i live) ≡ false
  unfolding arm
  arm-live = ground arith

abbrev is_ready : Arm → Bool
is_ready ready = true
is_ready _ = false

status-is_ready : (a : Arm) → (status_text a == "True") ≡ is_ready a
status-is_ready ready = refl
status-is_ready _ = refl

module _ (i : Instance) where
  arm-ready :
      (seen : StopSeen) → is_ready (arm i seen) ≡ (i.status == "Running" || i.status == "Ready")
  unfolding arm
  arm-ready seen = ground arith

-- For an instance and a stop seen in either way: the condition has the reason of a runtime restart
-- exactly when the stop was discovered and the runtime, not the guest or a request, stopped the
-- instance.
pub ready_condition-runtime_restart :
    (debug : String → String) (i : Instance) (seen : StopSeen)
    → let reason = (ready_condition debug i seen).reason in
      (reason == condition_runtime_restart) ≡ (is_discovered seen && stopped_by_the_runtime i)
unfolding ready_condition
ready_condition-runtime_restart debug i discovered =
    reason-runtime_restart (arm i discovered) ∙ arm-discovered i
ready_condition-runtime_restart debug i live = reason-runtime_restart (arm i live) ∙ arm-live i

-- The condition is true exactly when LXD reports the instance Running or Ready.
pub ready_condition-status :
    (debug : String → String) (i : Instance) (seen : StopSeen)
    → let status = (ready_condition debug i seen).status in
      (status == "True") ≡ (i.status == "Running" || i.status == "Ready")
unfolding ready_condition
ready_condition-status debug i seen = status-is_ready (arm i seen) ∙ arm-ready i seen

-- The arm of a stopped instance.
arm-stopped :
    (i : Instance) (seen : StopSeen)
    → (i.status == "Stopped") ≡ true
    → arm i seen ≡ elim (lookup key_last_power i.config) [
      | none ↦ created
      | some power ↦
          if contains_key i.config key_stop_intent
          then stopped
          else if is_discovered seen && power == "RUNNING"
          then runtime_restart
          else exited
    ]
unfolding arm stopped_by_the_runtime
arm-stopped i seen down =
    let not_running = eq_excludes i.status "Stopped" "Running" down refl in
    let not_ready = eq_excludes i.status "Stopped" "Ready" down refl in
    ground (arith, down, not_running, not_ready)

reason-stopped :
    (o : Option String) (marked found : Bool)
    → reason_text (elim o [
      | none ↦ created
      | some power ↦
          if marked
          then stopped
          else if found && power == "RUNNING"
          then runtime_restart
          else exited
    ])
      ≡ elim o [
        | none ↦ condition_created
        | some power ↦
            if marked
            then condition_stopped
            else if found && power == "RUNNING"
            then condition_runtime_restart
            else condition_exited
      ]
reason-stopped o marked found = ground arith

-- For an instance that LXD reports as stopped: the reason tells by the power record and the
-- stop marker alone whether it never ran, was stopped on request, was taken down by the runtime
-- (only where the stop was discovered), or exited.
pub ready_condition-stopped :
    (debug : String → String) (i : Instance) (seen : StopSeen)
    → i.status ≡ "Stopped"
    → (ready_condition debug i seen).reason ≡ elim (lookup key_last_power i.config) [
      | none ↦ condition_created
      | some power ↦
          if contains_key i.config key_stop_intent
          then condition_stopped
          else if is_discovered seen && power == "RUNNING"
          then condition_runtime_restart
          else condition_exited
    ]
unfolding ready_condition
ready_condition-stopped debug i seen h =
    ap reason_text (arm-stopped i seen ((eq_iff i.status "Stopped").1 h))
    ∙ reason-stopped (lookup key_last_power i.config) (contains_key i.config key_stop_intent)
        (is_discovered seen)
