-- ===== src/Gc/Aliases.antt =====
-- crates/openshell-driver-lxd/src/gc.rs and image.rs: the aliases of the driver's own images.
use openshell_driver_lxd.Common.{
  ℕ, ◌≤◌, ◌≡◌, refl, ap, ◌∙◌, arith, String, ◌<>◌, List, [], ◌∷◌, none, some, Bool, true, false,
}
use openshell_driver_lxd.Common.{
  ◌&&◌, ◌==◌, nat_eq, string_eq, all, contains, ltb, Bool-cases, inl, inr, eq_iff, nat_beq,
}
use openshell_driver_lxd.Common.Text.{
  strip_prefix, strip_prefix-append, split_once, all_chars, is_digit,
}
use openshell_driver_lxd.Common.Decimal.{show, show_onto, digits-show, parse_u32-show, u32_max}
use openshell_driver_lxd.Lxd.Types.{Image}
use openshell_driver_lxd.Gc.{
  conversion_revision, clean, cache_alias_with_prefix, is_digest, revision_parts, older_revision,
  is_older_revision_alias, is_stale_image,
}
use text.Mathlib.TextLemmas.{cons-append, nil-append, append_assoc}
use Prim.Native.Char.{code}

-- Digits hold no hyphen.
split_once-digits :
    (s t : String) → all_chars is_digit s ≡ true → split_once b'-' (s <> ("-" <> t)) ≡ some (s, t)
unfolding split_once all_chars
split_once-digits String.[] t h = rw (nil-append, cons-append) (rw nil-append refl)
split_once-digits (String.◌∷◌ c s) t h =
    let tail : split_once b'-' (s <> ("-" <> t)) ≡ some (s, t) =
      split_once-digits s t (ground arith) in
    let other : nat_beq (code c) b'-' ≡ false = ground arith in
    rw cons-append (ground (arith, tail, other))

-- An alias of revision `n` under the driver's prefix is older exactly when `n` is below
-- the current revision and the rest is a digest.
pub is_older_revision_alias-revision :
    (prefix digest : String) (n : ℕ)
    → n ≤ u32_max
    → is_older_revision_alias (prefix <> ("r" <> (show n <> ("-" <> digest)))) prefix
      ≡ (ltb n conversion_revision && is_digest digest)
unfolding is_older_revision_alias
is_older_revision_alias-revision prefix digest n h =
    let rest = "r" <> (show n <> ("-" <> digest)) in
    let whole : strip_prefix (prefix <> rest) prefix ≡ some rest =
      strip_prefix-append prefix rest in
    let after : strip_prefix rest "r" ≡ some (show n <> ("-" <> digest)) =
      strip_prefix-append "r" (show n <> ("-" <> digest)) in
    let parts : revision_parts rest ≡ some (show n, digest) =
      ap (λ o. elim o [ none ↦ none | some r ↦ split_once b'-' r ]) after
      ∙ split_once-digits (show n) digest (digits-show n) in
    ap (λ o. elim o [ none ↦ false | some x ↦ older_revision (revision_parts x) x ]) whole
    ∙ ap (λ o. older_revision o rest) parts
    ∙ ap
        (λ o. elim o [
          | none ↦ is_digest rest
          | some m ↦ ltb m conversion_revision && is_digest digest
        ])
        (parse_u32-show n h)

apart : (t : String) → "r3-" <> t ≡ "r" <> (show 3 <> ("-" <> t))
unfolding show show_onto
apart t = append_assoc "r" "3-" t ∙ ap (λ x. "r" <> x) (append_assoc "3" "-" t)

current-not_older :
    (prefix digest : String)
    → is_older_revision_alias (cache_alias_with_prefix prefix digest) prefix ≡ false
unfolding cache_alias_with_prefix
current-not_older prefix digest =
    ap (λ t. is_older_revision_alias (prefix <> t) prefix) (apart (clean digest))
    ∙ is_older_revision_alias-revision prefix (clean digest) 3 (omega arith)

all-contains :
    (p : String → Bool) (xs : List String) (a : String)
    → contains xs a ≡ true
    → p a ≡ false
    → all p xs ≡ false
all-contains p [] a h k = cc
all-contains p (x ∷ xs) a h k = elim (Bool-cases (x == a)) [
  | inl same ↦ let e : p x ≡ false = ap p ((eq_iff x a).0 same) ∙ k in ground (arith, e)
  | inr other ↦ ground (arith, all-contains p xs a (ground arith) k)
]

-- An image that has the alias of a digest under the current revision is kept, whatever its other
-- aliases are.
pub is_stale_image-current :
    (project prefix digest : String) (image : Image)
    → contains image.aliases (cache_alias_with_prefix prefix digest) ≡ true
    → is_stale_image project prefix image ≡ false
unfolding is_stale_image
is_stale_image-current project prefix digest image h =
    let none_left =
      all-contains (λ alias. is_older_revision_alias alias prefix) image.aliases
        (cache_alias_with_prefix prefix digest) h (current-not_older prefix digest) in
    ground (arith, none_left)
