-- ===== src/Mapping/Config/Guarantees.antt =====
-- crates/openshell-driver-lxd/src/mapping.rs: what `build_create_config` puts under which key.
use openshell_driver_lxd.Common.{
  ℕ, String, ◌<>◌, List, [], ◌∷◌, none, some, Bool, false, ◌≡◌, refl, ◌∙◌, arith, ◌==◌, string_eq,
  if◌then◌else◌, not, contains,
}
use openshell_driver_lxd.Common.Text.{strip_prefix, prefixed-ne, prefixed-eq, eq_comm, is_empty}
use text.Mathlib.TextLemmas.{cons-append}
use openshell_driver_lxd.Common.Dict.{Dict, lookup, insert, lookup-insert, last}
use openshell_driver_lxd.Lxd.Types.{ok}
use openshell_driver_lxd.Lxd.Resources.{Cores}
use openshell_driver_lxd.Mapping.{key_sandbox_id, key_namespace, key_workspace}
use openshell_driver_lxd.Mapping.Request.{Sandbox, Spec, Template, Floats}
use openshell_driver_lxd.Mapping.Config.{
  MainProcess, insert_prefixed, build_create_config, driver_config, env_prefix, label_prefix,
  main_process_spec, guest_ssh_socket_path,
}
use openshell_driver_lxd.Mapping.Config.Laws.{
  lookup-insert_if, lookup-insert_prefixed, lookup-insert_prefixed_other,
  lookup-build_create_config,
}

module _ (debug : String → String) (F : Floats) (C : Cores) (json : MainProcess → String) where
  module _ (sandbox : Sandbox) (spec : Spec) (template : Template) (endpoint : String)
      (has_token : Bool) where
    abbrev start : Dict String
    start = driver_config debug F C json sandbox spec template endpoint has_token

    -- Neither the endpoint nor the token file is under any other key.
    lookup-start :
        (j : String)
        → ("environment.OPENSHELL_SANDBOX_TOKEN_FILE" == j) ≡ false
        → ("environment.OPENSHELL_ENDPOINT" == j) ≡ false
        → lookup j start ≡ (
            if "environment.OPENSHELL_MAIN_PROCESS_SPEC" == j
            then some (main_process_spec debug F C json spec)
            else if "environment.OPENSHELL_SSH_SOCKET_PATH" == j
            then some guest_ssh_socket_path
            else if "environment.OPENSHELL_SANDBOX" == j
            then some sandbox.name
            else if "environment.OPENSHELL_SANDBOX_ID" == j
            then some sandbox.id
            else lookup j (
                insert_prefixed env_prefix template.environment (
                  insert_prefixed env_prefix spec.environment (
                    insert key_workspace sandbox.workspace (
                      insert key_namespace sandbox.namespace
                        (insert key_sandbox_id sandbox.id []))))))
    unfolding driver_config
    lookup-start j p q =
        lookup-insert_if j _ _ has_token _ p
        ∙ (lookup-insert_if j _ _ (not (is_empty endpoint)) _ q ∙ simp lookup-insert)

  -- Whatever environment, labels and limits a request brings, an accepted instance carries the
  -- sandbox's id under the marker key, and the id, the name, the SSH socket and the main process of
  -- the sandbox in the four variables that the driver injects.
  pub build_create_config-identity :
      (sandbox : Sandbox) (spec : Spec) (template : Template) (endpoint : String) (has_token : Bool)
      (default_max : ℕ) (config : Dict String)
      → build_create_config debug F C json sandbox spec template endpoint has_token default_max
        ≡ ok config
      → (lookup key_sandbox_id config ≡ some sandbox.id)
        × (lookup "environment.OPENSHELL_SANDBOX_ID" config ≡ some sandbox.id)
        × (lookup "environment.OPENSHELL_SANDBOX" config ≡ some sandbox.name)
        × (lookup "environment.OPENSHELL_SSH_SOCKET_PATH" config ≡ some guest_ssh_socket_path)
        × (lookup "environment.OPENSHELL_MAIN_PROCESS_SPEC" config
            ≡ some (main_process_spec debug F C json spec))
  unfolding strip_prefix lookup
  build_create_config-identity sandbox spec template endpoint has_token max config e =
      let kept = λ (j : String).
        lookup-build_create_config debug F C json sandbox spec template endpoint has_token max j
          config in
      let first = λ (j : String). lookup-start sandbox spec template endpoint has_token j in
      (
        kept key_sandbox_id refl refl refl refl e
            ∙ (first key_sandbox_id refl refl
                ∙ (lookup-insert_prefixed_other env_prefix key_sandbox_id template.environment _
                      refl
                    ∙ (lookup-insert_prefixed_other env_prefix key_sandbox_id spec.environment _
                          refl
                        ∙ simp lookup-insert))),
        kept "environment.OPENSHELL_SANDBOX_ID" refl refl refl refl e
            ∙ first "environment.OPENSHELL_SANDBOX_ID" refl refl,
        kept "environment.OPENSHELL_SANDBOX" refl refl refl refl e
            ∙ first "environment.OPENSHELL_SANDBOX" refl refl,
        kept "environment.OPENSHELL_SSH_SOCKET_PATH" refl refl refl refl e
            ∙ first "environment.OPENSHELL_SSH_SOCKET_PATH" refl refl,
        kept "environment.OPENSHELL_MAIN_PROCESS_SPEC" refl refl refl refl e
            ∙ first "environment.OPENSHELL_MAIN_PROCESS_SPEC" refl refl,
      )

  -- The variables that the driver sets itself.
  abbrev pub reserved : List String
  reserved =
      "OPENSHELL_SANDBOX_TOKEN_FILE" ∷ "OPENSHELL_ENDPOINT" ∷ "OPENSHELL_MAIN_PROCESS_SPEC"
      ∷ "OPENSHELL_SSH_SOCKET_PATH" ∷ "OPENSHELL_SANDBOX" ∷ "OPENSHELL_SANDBOX_ID" ∷ []

  not_label : (k : String) → strip_prefix (env_prefix <> k) label_prefix ≡ none
  unfolding strip_prefix
  not_label k = rw cons-append refl

  not_other : (k j : String) → strip_prefix j env_prefix ≡ none → (j == (env_prefix <> k)) ≡ false
  not_other k j h = eq_comm j (env_prefix <> k) ∙ prefixed-ne env_prefix k j h

  reserved-ne : (r k : String) → (r == k) ≡ false → ((env_prefix <> r) == (env_prefix <> k)) ≡ false
  reserved-ne r k h = prefixed-eq env_prefix r k ∙ h

  identity_of : Sandbox → Dict String
  identity_of s =
      insert key_workspace s.workspace
        (insert key_namespace s.namespace (insert key_sandbox_id s.id []))

  identity-other : (s : Sandbox) (k : String) → lookup (env_prefix <> k) (identity_of s) ≡ none
  unfolding identity_of lookup strip_prefix
  identity-other s k =
      rw (lookup-insert, not_other k key_workspace refl)
        (rw (lookup-insert, not_other k key_namespace refl)
          (rw (lookup-insert, not_other k key_sandbox_id refl) refl))

  -- A variable that the driver does not set itself has the template's value if the template sets it,
  -- else the spec's, else none.
  pub build_create_config-environment :
      (sandbox : Sandbox) (spec : Spec) (template : Template) (endpoint : String) (has_token : Bool)
      (default_max : ℕ) (config : Dict String) (k : String)
      → build_create_config debug F C json sandbox spec template endpoint has_token default_max
        ≡ ok config
      → contains reserved k ≡ false
      → lookup (env_prefix <> k) config
        ≡ elim (last k template.environment) [ some v ↦ some v | none ↦ last k spec.environment ]
  unfolding strip_prefix identity_of
  build_create_config-environment sandbox spec template endpoint has_token max config k e h =
      lookup-build_create_config debug F C json sandbox spec template endpoint has_token max
        (env_prefix <> k) config (not_label k) (not_other k "limits.cpu" refl)
        (not_other k "limits.memory" refl) (not_other k "limits.processes" refl) e
      ∙ (lookup-start sandbox spec template endpoint has_token (env_prefix <> k)
            (reserved-ne "OPENSHELL_SANDBOX_TOKEN_FILE" k (ground arith))
            (reserved-ne "OPENSHELL_ENDPOINT" k (ground arith))
          ∙ rw
              (
                reserved-ne "OPENSHELL_MAIN_PROCESS_SPEC" k (ground arith),
                reserved-ne "OPENSHELL_SSH_SOCKET_PATH" k (ground arith),
                reserved-ne "OPENSHELL_SANDBOX" k (ground arith),
                reserved-ne "OPENSHELL_SANDBOX_ID" k (ground arith),
              )
              (ground (
                arith,
                lookup-insert_prefixed env_prefix k template.environment
                    (insert_prefixed env_prefix spec.environment (identity_of sandbox)),
                lookup-insert_prefixed env_prefix k spec.environment (identity_of sandbox),
                identity-other sandbox k,
              )))
