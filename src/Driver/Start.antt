-- ===== src/Driver/Start.antt =====
-- crates/openshell-driver-lxd/src/driver.rs: `start_sandbox` and `settle_after_start`.
use openshell_driver_lxd.Common.{ℕ, zero, suc, String, ◌<>◌, List, [], ◌∷◌, none, some, Bool}
use openshell_driver_lxd.Common.{not, ◌&&◌, ◌||◌, ◌==◌, nat_eq, string_eq, if◌then◌else◌}
use openshell_driver_lxd.Common.Text.{eq_ignore_ascii_case}
use openshell_driver_lxd.Common.Dict.{lookup, contains_key}
use openshell_driver_lxd.Lxd.Types.{LxdError, Result, ok, err, Instance}
use openshell_driver_lxd.Lxd.{
  Lxd, get_instance, patch_instance_config, push_file_into_instance, is_missing,
}
use openshell_driver_lxd.Lxd.Actions.{
  Action, pure, raise, ◌>>=◌, ◌>>◌, try_send, send, sleep, read_file, take_lock,
}
use openshell_driver_lxd.Errors.{lxd, failed_precondition}
use openshell_driver_lxd.Config.{Config, guest_tls}
use openshell_driver_lxd.Mapping.{key_sandbox_id, key_stop_intent}
use openshell_driver_lxd.Mapping.Config.{guest_tls_ca_path, guest_tls_cert_path, guest_tls_key_path}
use openshell_driver_lxd.Driver.{settle_delay, has_id, get_managed_instance, start_and_wait}

-- Whether a settling start must start the instance again: it is the same sandbox, it is stopped,
-- and nobody asked for that.
unfoldable pub needs_restart : String → Instance → Bool
needs_restart expected i =
    has_id expected i
    && (eq_ignore_ascii_case i.status "Stopped" && not (contains_key i.config key_stop_intent))

abbrev pub id_or_default : Instance → String
id_or_default i = elim (lookup key_sandbox_id i.config) [ none ↦ "" | some id ↦ id ]

module _ (debug : String → String) (c : Config) (L : Lxd) where
  abbrev pub settle_answer :
      String → Action L (Unit {0}) → Result LxdError Instance → Action L (Unit {0})
  settle_answer expected restart (ok i) = if needs_restart expected i then restart else pure tt
  settle_answer expected restart (err e) = if is_missing e then pure tt else raise (lxd e)

  -- The loop of `settle_after_start`, on the attempts left.
  unfoldable pub settle : ℕ → String → String → Action L (Unit {0})
  settle zero name expected = pure tt
  settle (suc attempts) name expected =
      let again = start_and_wait debug c L name >> settle attempts name expected in
      do sleep settle_delay; r ← try_send (get_instance name); settle_answer expected again r

  unfoldable pub settle_after_start : String → String → Action L (Unit {0})
  settle_after_start name expected = do take_lock name; settle c.start_retries name expected

  -- The files of `read_guest_tls_files`, read in order; the first one that fails ends it.
  unfoldable pub read_files : List (String × String) → Action L (List (String × List ℕ))
  read_files [] = pure []
  read_files ((guest_path, host_path) ∷ rest) = do
    r ← read_file host_path
    elim r [
      | err e ↦ raise (
          failed_precondition
            ("could not read the sandbox TLS material " <> (host_path <> (": " <> e))))
      | ok content ↦ do files ← read_files rest; pure ((guest_path, content) ∷ files)
    ]

  unfoldable pub read_guest_tls_files : Action L (List (String × List ℕ))
  read_guest_tls_files = elim (guest_tls c) [
    | none ↦ pure []
    | some t ↦ read_files (
        (guest_tls_ca_path, t.ca)
        ∷ (guest_tls_cert_path, t.cert)
        ∷ (guest_tls_key_path, t.key)
        ∷ [])
  ]

  unfoldable pub push_guest_files : String → List (String × List ℕ) → Action L (Unit {0})
  push_guest_files name [] = pure tt
  push_guest_files name ((guest_path, content) ∷ files) = do
    send (push_file_into_instance name guest_path content)
    push_guest_files name files

  -- `start_sandbox` of an instance that is stopped.
  unfoldable pub start_stopped : String → String → Action L (Unit {0})
  start_stopped name sandbox_id = do
    files ← read_guest_tls_files
    push_guest_files name files
    send (patch_instance_config name ((key_stop_intent, none) ∷ []))
    start_and_wait debug c L name
    settle_after_start name sandbox_id

  abbrev pub start_found : String → Instance → Action L (Unit {0})
  start_found name i =
      if i.status == "Stopped"
      then start_stopped name (id_or_default i)
      else if i.status == "Running" || (i.status == "Ready" || i.status == "Starting")
      then pure tt
      else raise (
          failed_precondition (
            "sandbox instance is "
            <> (i.status <> ", not stopped; it can be started once it has stopped")))

  unfoldable pub start_sandbox : String → Action L (Unit {0})
  start_sandbox name = do i ← get_managed_instance debug c L name; start_found name i
