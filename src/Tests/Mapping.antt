-- ===== src/Tests/Mapping.antt =====
-- The theorems on the configuration, the conditions and the new instances.
use openshell_driver_lxd.Common.{◌≡◌, refl, ℕ, String, [], ◌∷◌, none, some, true, false, string_eq}
use openshell_driver_lxd.Common.Dict.{Dict, lookup, insert}
use openshell_driver_lxd.Common.Text.{all_chars}
use openshell_driver_lxd.Lxd.Types.{Result, ok, err, Instance}
use openshell_driver_lxd.Lxd.Resources.{Cores}
use openshell_driver_lxd.Errors.{DriverError}
use openshell_driver_lxd.Mapping.{key_sandbox_id}
use openshell_driver_lxd.Mapping.Request.{Floats, Sandbox, Spec, Template}
use openshell_driver_lxd.Mapping.Config.{
  MainProcess, main_process_spec, build_create_config, insert_labels, insert_resources,
  driver_config, insert_prefixed, is_valid_label_key, max_processes, config_value,
  guest_ssh_socket_path,
}
use openshell_driver_lxd.Mapping.Config.Guarantees.{build_create_config-identity}
use openshell_driver_lxd.Tests.{quoted, sandbox_box}

abbrev went_down : Instance
went_down = sandbox_box "Stopped" (("volatile.last_state.power", "RUNNING") ∷ [])

abbrev pub floats : Floats
floats = record {
  is_finite = λ n. true;
  is_nonnegative = λ n. true;
  is_integral = λ n. true;
  le_u32_max = λ n. true;
  to_u32 = λ n. n;
}

abbrev pub cores : Cores
cores = record {
  F64 = ℕ;
  parse = λ s. some 2;
  div_1000 = λ n. n;
  is_finite = λ n. true;
  le_zero = λ n. false;
  ceil = λ n. n;
}

abbrev pub json : MainProcess → String
json p = "{}"

abbrev pub template : Template
template = record {
  image = "ubuntu";
  environment = ("HOME", "/root") ∷ ("OPENSHELL_SANDBOX_ID", "forged") ∷ [];
  labels = ("team", "a") ∷ [];
  resources = none;
  driver_config = none;
}

abbrev pub spec : Spec
spec = record {
  environment = ("HOME", "/home") ∷ ("PATH", "/bin") ∷ [];
  template = some template;
  sandbox_token = "";
  command = [];
  tty = false;
  await_main_process_attachment = false;
  gpu = none;
}

abbrev pub box : Sandbox
box = record { id = "id-1"; name = "box"; namespace = "n"; workspace = "w"; spec = some spec }

abbrev unwrapped : Result DriverError (Dict String) → Dict String
unwrapped (ok c) = c
unwrapped (err e) = []

abbrev built : Result DriverError (Dict String)
built = build_create_config quoted floats cores json box spec template "" false 0

accepted : built ≡ ok (unwrapped built)
unfolding build_create_config insert_labels insert_resources driver_config insert_prefixed
    max_processes config_value insert main_process_spec is_valid_label_key all_chars
accepted = refl

build_create_config-identity_example :
    (lookup key_sandbox_id (unwrapped built) ≡ some box.id)
    × (lookup "environment.OPENSHELL_SANDBOX_ID" (unwrapped built) ≡ some box.id)
    × (lookup "environment.OPENSHELL_SANDBOX" (unwrapped built) ≡ some box.name)
    × (lookup "environment.OPENSHELL_SSH_SOCKET_PATH" (unwrapped built)
        ≡ some guest_ssh_socket_path)
    × (lookup "environment.OPENSHELL_MAIN_PROCESS_SPEC" (unwrapped built)
        ≡ some (main_process_spec quoted floats cores json spec))
build_create_config-identity_example =
    build_create_config-identity quoted floats cores json box spec template "" false 0
      (unwrapped built) accepted
