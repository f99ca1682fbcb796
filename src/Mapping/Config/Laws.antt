-- ===== src/Mapping/Config/Laws.antt =====
-- crates/openshell-driver-lxd/src/mapping.rs: `build_create_config`, key by key.
use openshell_driver_lxd.Common.{
  ℕ, String, ◌<>◌, [], ◌∷◌, Option, none, some, Bool, false, ◌≡◌, refl, sym, ◌∙◌, ap, arith, ◌==◌,
  string_eq, Bool-cases, inl, inr, nat_eq,
}
use openshell_driver_lxd.Common.Text.{strip_prefix, prefixed-ne, prefixed-eq, is_empty}
use openshell_driver_lxd.Common.Dict.{Dict, lookup, insert, lookup-insert, last}
use openshell_driver_lxd.Lxd.Types.{LxdError, Result, ok}
use openshell_driver_lxd.Lxd.Resources.{Cores}
use openshell_driver_lxd.Errors.{ok-injective, from_lxd, >>=-eq-ok}
use openshell_driver_lxd.Mapping.Request.{Sandbox, Spec, Template, Resources, Floats}
use openshell_driver_lxd.Mapping.Config.{
  MainProcess, insert_prefixed, insert_labels, insert_resources, insert_limit, insert_if,
  build_create_config, driver_config, label_prefix,
}

pub lookup-insert_prefixed_other :
    (p j : String) (m c : Dict String)
    → strip_prefix j p ≡ none
    → lookup j (insert_prefixed p m c) ≡ lookup j c
unfolding insert_prefixed
lookup-insert_prefixed_other p j [] c h = refl
lookup-insert_prefixed_other p j ((k, v) ∷ m) c h =
    lookup-insert_prefixed_other p j m (insert (p <> k) v c) h
    ∙ rw (lookup-insert, prefixed-ne p k j h)

-- The last entry of a request's map for a key is what its prefixed key holds.
pub lookup-insert_prefixed :
    (p k : String) (m c : Dict String)
    → lookup (p <> k) (insert_prefixed p m c)
      ≡ elim (last k m) [ some v ↦ some v | none ↦ lookup (p <> k) c ]
unfolding insert_prefixed
lookup-insert_prefixed p k [] c = refl
lookup-insert_prefixed p k ((j, v) ∷ m) c = ground (
  arith,
  lookup-insert_prefixed p k m (insert (p <> j) v c),
  lookup-insert (p <> j) (p <> k) v c,
  prefixed-eq p j k,
)

lookup-insert_limit :
    (j k : String) (convert : String → Result LxdError String) (q : String) (c d : Dict String)
    → (k == j) ≡ false
    → insert_limit k convert q c ≡ ok d
    → lookup j d ≡ lookup j c
unfolding insert_limit
lookup-insert_limit j k convert q c d h e = elim (Bool-cases (is_empty q)) [
  | inl none_given ↦ ground arith
  | inr given ↦
      let (v, _, same) = >>=-eq-ok (from_lxd (convert q)) _ (rw given at e) in
      ground (arith, lookup-insert k j v c, same)
]

pub lookup-insert_if :
    (j k v : String) (test : Bool) (c : Dict String)
    → (k == j) ≡ false
    → lookup j (insert_if test k v c) ≡ lookup j c
lookup-insert_if j k v test c h = ground (arith, lookup-insert k j v c)

module _ (debug : String → String) (F : Floats) (C : Cores) (json : MainProcess → String) where
  lookup-insert_labels :
      (j : String) (m c d : Dict String)
      → strip_prefix j label_prefix ≡ none
      → insert_labels debug F C json m c ≡ ok d
      → lookup j d ≡ lookup j c
  unfolding insert_labels
  lookup-insert_labels j [] c d h e = ground arith
  lookup-insert_labels j ((k, v) ∷ m) c d h e = ground (
    arith,
    lookup-insert_labels j m (insert (label_prefix <> k) v c) d h,
    lookup-insert (label_prefix <> k) j v c,
    prefixed-ne label_prefix k j h,
  )

  lookup-insert_resources :
      (j : String) (r : Option Resources) (c d : Dict String)
      → ("limits.cpu" == j) ≡ false
      → ("limits.memory" == j) ≡ false
      → insert_resources debug F C json r c ≡ ok d
      → lookup j d ≡ lookup j c
  unfolding insert_resources
  lookup-insert_resources j none c d p q e = ground arith
  lookup-insert_resources j (some r) c d p q e =
      let (m, first, second) = >>=-eq-ok _ _ e in
      lookup-insert_limit j "limits.memory" _ _ m d q second
      ∙ lookup-insert_limit j "limits.cpu" _ _ c m p first

  -- Labels, limits and the process count leave every other key as it was.
  pub lookup-build_create_config :
      (sandbox : Sandbox) (spec : Spec) (template : Template) (endpoint : String) (has_token : Bool)
      (default_max : ℕ) (j : String) (config : Dict String)
      → strip_prefix j label_prefix ≡ none
      → ("limits.cpu" == j) ≡ false
      → ("limits.memory" == j) ≡ false
      → ("limits.processes" == j) ≡ false
      → build_create_config debug F C json sandbox spec template endpoint has_token default_max
        ≡ ok config
      → lookup j config
        ≡ lookup j (driver_config debug F C json sandbox spec template endpoint has_token)
  unfolding build_create_config
  lookup-build_create_config sandbox spec template endpoint has_token default_max j config l p q r
        e =
      let (labelled, labels, rest) = >>=-eq-ok _ _ e in
      let (limited, limits, last) = >>=-eq-ok _ _ rest in
      ap (lookup j) (ok-injective _ _ (sym last))
      ∙ lookup-insert_if j "limits.processes" _ _ limited r
      ∙ lookup-insert_resources j template.resources labelled limited p q limits
      ∙ lookup-insert_labels j template.labels _ labelled l labels
