-- ===== src/Image/Manifest/Selection.antt =====
-- crates/openshell-driver-lxd/src/image.rs, `select_arch_digest`: which digest it selects.
use openshell_driver_lxd.Common.{
  ℕ, String, List, Option, none, some, true, ◌≡◌, refl, ◌⊎◌, inl, inr, Bool-cases, sym, ◌∙◌,
}
use mathlib.Core.Option.{none-ne-some}
use openshell_driver_lxd.Lxd.Types.{Result, ok, err}
use openshell_driver_lxd.Errors.{DriverError}
use openshell_driver_lxd.Image.Manifest.{
  Json, Items, nil, cons, get, as_array, platform_is, digest_in, offer, or_else, first_offer,
  or_missing, select_arch_digest,
}

-- An entry of an index.
pub data Lists : Items → Json → Type 0 where
  head : {entry : Json} {rest : Items} → Lists (cons entry rest) entry
  behind : {entry other : Json} {rest : Items} → Lists rest entry → Lists (cons other rest) entry

abbrev pub Offers : String → String → Json → String → Type 0
Offers os arch entry digest = (platform_is os arch entry ≡ true) × (digest_in entry ≡ some digest)

offer-Offers :
    (os arch : String) (entry : Json) (digest : String)
    → offer os arch entry ≡ some digest
    → Offers os arch entry digest
offer-Offers os arch entry digest h = elim (Bool-cases (platform_is os arch entry)) [
  | inl e ↦ (e, rw e at h)
  | inr e ↦ absurd (none-ne-some _ (rw e at h))
]

Offers-offer :
    (os arch : String) (entry : Json) (digest : String)
    → Offers os arch entry digest
    → offer os arch entry ≡ some digest
Offers-offer os arch entry digest h = rw h.0 h.1

or_else-some :
    (o later : Option String) (digest : String)
    → or_else o later ≡ some digest
    → (o ≡ some digest) ⊎ (later ≡ some digest)
or_else-some none later digest h = inr h
or_else-some (some d) later digest h = inl h

or_else-none : (o later : Option String) → or_else o later ≡ none → (o ≡ none) × (later ≡ none)
or_else-none none later h = (refl, h)
or_else-none (some d) later h = absurd (none-ne-some d (sym h))

first_offer-Lists :
    (os arch : String) (items : Items) (digest : String)
    → first_offer os arch items ≡ some digest
    → (entry : Json) × Lists items entry × Offers os arch entry digest
unfolding first_offer
first_offer-Lists os arch nil digest h = absurd (none-ne-some digest h)
first_offer-Lists os arch (cons entry rest) digest h =
    elim (or_else-some (offer os arch entry) (first_offer os arch rest) digest h) [
      | inl e ↦ (entry, head, offer-Offers os arch entry digest e)
      | inr e ↦
          let (entry', listed, offers) = first_offer-Lists os arch rest digest e in
          (entry', behind listed, offers)
    ]

abbrev pub NoneOffers : String → String → Items → Type 0
NoneOffers os arch nil = Unit
NoneOffers os arch (cons entry rest) =
    ((digest : String) → ¬ Offers os arch entry digest) × NoneOffers os arch rest

no_offer-NoneOffers :
    (os arch : String) (items : Items) → first_offer os arch items ≡ none → NoneOffers os arch items
unfolding first_offer
no_offer-NoneOffers os arch nil h = tt
no_offer-NoneOffers os arch (cons entry rest) h =
    let (no_offer, no_later) = or_else-none (offer os arch entry) (first_offer os arch rest) h in
    (
      λ digest offers.
          none-ne-some digest (sym no_offer ∙ Offers-offer os arch entry digest offers),
      no_offer-NoneOffers os arch rest no_later,
    )

-- The outcome of the choice among the entries of an index.
abbrev pub IsChoice : String → String → Items → Result DriverError String → Type 0
IsChoice os arch items (ok digest) =
    (entry : Json) × Lists items entry × Offers os arch entry digest
IsChoice os arch items (err e) = NoneOffers os arch items

or_missing-IsChoice :
    (os arch : String) (items : Items) (o : Option String)
    → first_offer os arch items ≡ o
    → IsChoice os arch items (or_missing os arch o)
or_missing-IsChoice os arch items none h = no_offer-NoneOffers os arch items h
or_missing-IsChoice os arch items (some digest) h = first_offer-Lists os arch items digest h

-- For a document that is an index of manifests: a digest that is selected stands in an entry for the
-- platform, and where none is selected, no entry for the platform has a digest.
pub select_arch_digest-IsChoice :
    (parse : List ℕ → Result String Json) (sha256 : List ℕ → List ℕ) (raw : List ℕ)
    (os arch : String) (doc : Json) (items : Items)
    → parse raw ≡ ok doc
    → as_array (get "manifests" doc) ≡ some items
    → IsChoice os arch items (select_arch_digest parse sha256 raw os arch)
unfolding select_arch_digest
select_arch_digest-IsChoice parse sha256 raw os arch doc items h k =
    rw h (rw k (or_missing-IsChoice os arch items (first_offer os arch items) refl))
