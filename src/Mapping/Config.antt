-- ===== src/Mapping/Config.antt =====
-- crates/openshell-driver-lxd/src/mapping.rs: the configuration of a new instance.
pub mod Laws
pub mod Guarantees
use openshell_driver_lxd.Common.{
  ℕ, zero, suc, ◌≤◌, String, ◌<>◌, List, [], ◌∷◌, Option, none, some, Bool, true, false,
}
use openshell_driver_lxd.Common.{◌&&◌, ◌||◌, not, ◌==◌, nat_eq, string_eq, if◌then◌else◌, nat_beq}
use openshell_driver_lxd.Common.Text.{is_empty, all_chars, is_alphanumeric}
use openshell_driver_lxd.Common.Decimal.{show, parse_u32}
use openshell_driver_lxd.Common.Dict.{Dict, lookup, insert}
use openshell_driver_lxd.Lxd.Types.{LxdError, Result, ok, err}
use openshell_driver_lxd.Lxd.Resources.{Cores, cpu_limit_to_lxd, memory_limit_to_lxd}
use openshell_driver_lxd.Errors.{DriverError, invalid_argument, from_lxd, ◌>>=◌}
use openshell_driver_lxd.Mapping.{key_sandbox_id, key_namespace, key_workspace}
use openshell_driver_lxd.Mapping.Request.{Sandbox, Spec, Template, Resources, Floats}
use openshell_driver_lxd.Mapping.Request.{
  Value, Values, Fields, unset, null_value, number_value, string_value, bool_value, struct_value,
  list_value, end, value, empty, field,
}

abbrev pub env_prefix : String
env_prefix = "environment."

abbrev pub label_prefix : String
label_prefix = "user.openshell.label."

abbrev pub guest_sandbox_token_path : String
guest_sandbox_token_path = "/etc/openshell/auth/sandbox.jwt"

abbrev pub guest_ssh_socket_path : String
guest_ssh_socket_path = "/run/openshell/ssh.sock"

abbrev pub guest_tls_ca_path : String
guest_tls_ca_path = "/etc/openshell/tls/client/ca.crt"

abbrev pub guest_tls_cert_path : String
guest_tls_cert_path = "/etc/openshell/tls/client/tls.crt"

abbrev pub guest_tls_key_path : String
guest_tls_key_path = "/etc/openshell/tls/client/tls.key"

-- `insert_guest_tls_environment`
unfoldable pub insert_guest_tls_environment : Dict String → Dict String
insert_guest_tls_environment config =
    insert (env_prefix <> "OPENSHELL_TLS_KEY") guest_tls_key_path (
      insert (env_prefix <> "OPENSHELL_TLS_CERT") guest_tls_cert_path
        (insert (env_prefix <> "OPENSHELL_TLS_CA") guest_tls_ca_path config))

-- The fields of the JSON object that `main_process_spec` prints.
pub record MainProcess : Type 0 where
  pub version : ℕ
  pub command : List String
  pub tty : Bool
  pub await_main_process_attachment : Bool

-- What `main_process_spec` prints: an empty command is the default shell.
unfoldable pub main_process : List String → Bool → Bool → MainProcess
main_process [] tty attach = record {
  version = 1;
  command = "/bin/bash" ∷ "-l" ∷ [];
  tty = true;
  await_main_process_attachment = false;
}
main_process (c ∷ cs) tty attach = record {
  version = 1;
  command = c ∷ cs;
  tty = tty;
  await_main_process_attachment = attach;
}

unfoldable pub is_valid_label_key : String → Bool
is_valid_label_key key =
    not (is_empty key)
    && all_chars (λ c. is_alphanumeric c || (nat_beq c b'.' || (nat_beq c b'_' || nat_beq c b'-')))
        key

-- `fields.get(key)`; an entry whose kind is unset counts as missing for every caller.
unfoldable pub get_field : String → Fields → Value
get_field key empty = unset
get_field key (field j v rest) = if j == key then v else get_field key rest

unfoldable pub config_value : Option Fields → String → Value
unfolding get_field
config_value none key = unset
config_value (some fields) key = get_field key fields

abbrev as_text : Value → Option String
as_text (string_value s) = some s
as_text _ = none

unfoldable pub struct_get_str : Option Fields → String → Option String
unfolding config_value
struct_get_str s key = as_text (config_value s key)

unfoldable pub texts : Values → List String
texts end = []
texts (value (string_value s) vs) = s ∷ texts vs
texts (value unset vs) = texts vs
texts (value null_value vs) = texts vs
texts (value (number_value n) vs) = texts vs
texts (value (bool_value b) vs) = texts vs
texts (value (struct_value f) vs) = texts vs
texts (value (list_value l) vs) = texts vs

abbrev as_texts : Value → List String
as_texts (list_value vs) = texts vs
as_texts _ = []

unfoldable pub struct_get_str_list : Option Fields → String → List String
unfolding config_value texts
struct_get_str_list s key = as_texts (config_value s key)

unfoldable pub build_profiles : Template → List String
unfolding struct_get_str_list
build_profiles t = "default" ∷ struct_get_str_list t.driver_config "profiles"

-- Each map entry under its prefix.
unfoldable pub insert_prefixed : String → Dict String → Dict String → Dict String
insert_prefixed prefix [] config = config
insert_prefixed prefix ((key, v) ∷ rest) config =
    insert_prefixed prefix rest (insert (prefix <> key) v config)

abbrev or_else_text : String → String → String
or_else_text limit request = if is_empty limit then request else limit

-- A limit that is set, converted.
unfoldable pub insert_limit :
    String
    → (String → Result LxdError String)
    → String
    → Dict String
    → Result DriverError (Dict String)
insert_limit key convert quantity config =
    if is_empty quantity
    then ok config
    else do v ← from_lxd (convert quantity); ok (insert key v config)

abbrev unwrap_or : Option ℕ → ℕ → ℕ
unwrap_or none d = d
unwrap_or (some n) d = n

abbrev pub insert_if : Bool → String → String → Dict String → Dict String
insert_if test key v config = if test then insert key v config else config

module _ (debug : String → String) (F : Floats) (C : Cores)
    (json_to_string : MainProcess → String) where
  abbrev number_to_u32 : ℕ → Option ℕ
  number_to_u32 n =
      if F.is_finite n && (F.is_nonnegative n && (F.is_integral n && F.le_u32_max n))
      then some (F.to_u32 n)
      else none

  abbrev as_count : Value → Option ℕ
  as_count (number_value n) = number_to_u32 n
  as_count (string_value s) = parse_u32 s
  as_count _ = none

  unfoldable pub max_processes : Template → Option ℕ
  unfolding config_value
  max_processes t = as_count (config_value t.driver_config "max_processes")

  unfoldable pub main_process_spec : Spec → String
  unfolding main_process
  main_process_spec s =
      json_to_string (main_process s.command s.tty s.await_main_process_attachment)

  abbrev pub invalid_label : String → DriverError
  invalid_label key =
      invalid_argument ("invalid label key " <> (debug key <> ": must match [a-zA-Z0-9._-]+"))

  -- The loop over the labels, which stops at the first invalid key.
  unfoldable pub insert_labels : Dict String → Dict String → Result DriverError (Dict String)
  insert_labels [] config = ok config
  insert_labels ((key, v) ∷ rest) config =
      let more = insert_labels rest (insert (label_prefix <> key) v config) in
      if is_valid_label_key key then more else err (invalid_label key)

  unfoldable pub insert_resources :
      Option Resources → Dict String → Result DriverError (Dict String)
  insert_resources none config = ok config
  insert_resources (some r) config = do
    with_cpu ←
        insert_limit "limits.cpu" (cpu_limit_to_lxd C) (or_else_text r.cpu_limit r.cpu_request)
          config
    insert_limit "limits.memory" memory_limit_to_lxd (or_else_text r.memory_limit r.memory_request)
        with_cpu

  -- The keys that the driver sets whatever the request says, over the request's environment.
  unfoldable pub driver_config : Sandbox → Spec → Template → String → Bool → Dict String
  unfolding insert_prefixed main_process_spec
  driver_config sandbox spec template gateway_endpoint has_token =
      let identity =
        insert key_workspace sandbox.workspace
          (insert key_namespace sandbox.namespace (insert key_sandbox_id sandbox.id [])) in
      let environment =
        insert_prefixed env_prefix template.environment
          (insert_prefixed env_prefix spec.environment identity) in
      let injected = insert (env_prefix <> "OPENSHELL_MAIN_PROCESS_SPEC") (main_process_spec spec) (
        insert (env_prefix <> "OPENSHELL_SSH_SOCKET_PATH") guest_ssh_socket_path (
          insert (env_prefix <> "OPENSHELL_SANDBOX") sandbox.name
            (insert (env_prefix <> "OPENSHELL_SANDBOX_ID") sandbox.id environment))) in
      let endpoint =
        insert_if (not (is_empty gateway_endpoint)) (env_prefix <> "OPENSHELL_ENDPOINT")
          gateway_endpoint injected in
      insert_if has_token (env_prefix <> "OPENSHELL_SANDBOX_TOKEN_FILE") guest_sandbox_token_path
        endpoint

  unfoldable pub build_create_config :
      Sandbox → Spec → Template → String → Bool → ℕ → Result DriverError (Dict String)
  build_create_config sandbox spec template gateway_endpoint has_token default_max_processes = do
    labelled ←
        insert_labels template.labels
          (driver_config sandbox spec template gateway_endpoint has_token)
    limited ← insert_resources template.resources labelled
    let limit = unwrap_or (max_processes template) default_max_processes
    ok (insert_if (not (limit == 0)) "limits.processes" (show limit) limited)
