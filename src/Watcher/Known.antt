-- ===== src/Watcher/Known.antt =====
-- crates/openshell-driver-lxd/src/watcher.rs: what the watcher knows once it has subscribed.
use openshell_driver_lxd.Common.{◌≡◌, refl, ap, ◌∙◌, arith, String, [], ◌∷◌, none, some}
use openshell_driver_lxd.Common.{
  ◌==◌, string_eq, eq_iff, eq_refl, Option-cases, Bool-cases, inl, inr,
}
use openshell_driver_lxd.Common.Dict.{Dict, lookup, last, lookup-extend, lookup-erase, extend}
use openshell_driver_lxd.Watcher.{retain, reconcile_and_seed_sandbox_ids, Watcher, forget}

last-lookup : (k : String) (m : Dict String) → lookup k m ≡ none → last k m ≡ none
unfolding lookup
last-lookup k [] h = refl
last-lookup k ((j, v) ∷ m) h = elim (Bool-cases (j == k)) [
  | inl same ↦ ground arith
  | inr other ↦ ground (arith, last-lookup k m (ground arith))
]

lookup-last : (k : String) (m : Dict String) → last k m ≡ none → lookup k m ≡ none
unfolding lookup
lookup-last k [] h = refl
lookup-last k ((j, v) ∷ m) h = ground (arith, lookup-last k m)

-- A name of neither listing is not retained.
lookup-retain :
    (k : String) (known pre_ids post_ids : Dict String)
    → lookup k pre_ids ≡ none
    → lookup k post_ids ≡ none
    → lookup k (retain known pre_ids post_ids).0 ≡ none
unfolding lookup retain
lookup-retain k [] pre_ids post_ids h g = refl
lookup-retain k ((name, id) ∷ known) pre_ids post_ids h g =
    let behind = lookup-retain k known pre_ids post_ids h g in
    elim (Bool-cases (name == k)) [
      | inl same ↦
          let e = (eq_iff name k).0 same in
          let no_pre : lookup name pre_ids ≡ none = ap (λ x. lookup x pre_ids) e ∙ h in
          let no_post : lookup name post_ids ≡ none = ap (λ x. lookup x post_ids) e ∙ g in
          ground (arith, no_pre, no_post, behind)
      | inr other ↦ ground (arith, behind)
    ]

-- After a subscription the watcher knows exactly what the two listings say, the second one first:
-- nothing that it knew before outlives them.
pub reconcile-lookup :
    (k : String) (known pre_ids post_ids : Dict String)
    → lookup k (reconcile_and_seed_sandbox_ids known pre_ids post_ids).0
      ≡ elim (last k post_ids) [ some id ↦ some id | none ↦ last k pre_ids ]
unfolding reconcile_and_seed_sandbox_ids
reconcile-lookup k known pre_ids post_ids =
    let stay = (retain known pre_ids post_ids).0 in
    lookup-extend k (extend stay pre_ids) post_ids
    ∙ ground (
      arith,
      lookup-extend k stay pre_ids,
      lookup-last k pre_ids,
      lookup-last k post_ids,
      lookup-retain k known pre_ids post_ids,
    )

-- A deletion event is reported once: a second one for the same name changes nothing.
pub forget-forget : (v : Watcher) (name : String) → forget (forget v name) name ≡ forget v name
unfolding forget
forget-forget v name = elim (Option-cases (lookup name v.known)) [
  | inl h ↦ ground (arith, h)
  | inr (id, h) ↦ ground (arith, h, lookup-erase name name v.known, eq_refl name)
]
