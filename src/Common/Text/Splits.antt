-- ===== src/Common/Text/Splits.antt =====
-- Where texts that are put together are split again.
use Prim.Native.Char.{Char, code}
use Prim.Native.String.{String, ◌++◌ as ◌<>◌}
use Prim.Native.Nat.{ℕ}
use mathlib.Core.Path.{◌≡◌, refl, ap, ◌∙◌}
use mathlib.Core.Bool.{true, false}
use mathlib.Core.Option.{none, some}
use native.Mathlib.Omega.{arith}
use text.Mathlib.TextLemmas.{cons-append, nil-append, append-nil}
use openshell_driver_lxd.Common.Text.{
  Lacks, all_chars, rsplit_once, rfind, starts_with, strip_prefix, strip_prefix-append,
}

pub Lacks-append : (d : ℕ) (s t : String) → Lacks d s → Lacks d t → Lacks d (s <> t)
unfolding all_chars
Lacks-append d String.[] t h k = rw nil-append k
Lacks-append d (String.◌∷◌ c s) t h k = rw cons-append (ground (arith, Lacks-append d s t))

pub rsplit_once-Lacks : (d : ℕ) (s : String) → Lacks d s → rsplit_once d s ≡ none
unfolding rsplit_once all_chars
rsplit_once-Lacks d String.[] h = refl
rsplit_once-Lacks d (String.◌∷◌ c s) h = ground (arith, rsplit_once-Lacks d s)

pub rsplit_once-behind :
    (d : ℕ) (s t a b : String)
    → rsplit_once d t ≡ some (a, b)
    → rsplit_once d (s <> t) ≡ some (s <> a, b)
unfolding rsplit_once
rsplit_once-behind d String.[] t a b h = rw (nil-append, nil-append) h
rsplit_once-behind d (String.◌∷◌ c s) t a b h =
    rw (cons-append, cons-append) (ground (arith, rsplit_once-behind d s t a b h))

rsplit_once-here :
    (d : Char) (t : String)
    → Lacks (code d) t
    → rsplit_once (code d) (String.◌∷◌ d t) ≡ some ("", t)
unfolding rsplit_once
rsplit_once-here d t h = ground (arith, rsplit_once-Lacks (code d) t h)

-- The last `d` splits a text.
pub rsplit_once-last :
    (d : Char) (s t : String)
    → Lacks (code d) t
    → rsplit_once (code d) (s <> (String.◌∷◌ d "" <> t)) ≡ some (s, t)
rsplit_once-last d s t h =
    rsplit_once-behind (code d) s (String.◌∷◌ d "" <> t) "" t
      (rw (cons-append, nil-append) (rsplit_once-here d t h))
    ∙ ap (λ front. some (front, t)) (append-nil s)

pub rsplit_once-before :
    (d : ℕ) (s t : String)
    → Lacks d t
    → rsplit_once d (s <> t)
      ≡ elim (rsplit_once d s) [ none ↦ none | some (a, b) ↦ some (a, b <> t) ]
unfolding rsplit_once
rsplit_once-before d String.[] t h = rw nil-append (rsplit_once-Lacks d t h)
rsplit_once-before d (String.◌∷◌ c s) t h =
    rw cons-append (ground (arith, rsplit_once-before d s t h))

pub rfind-behind :
    (p s t a b : String) → rfind p t ≡ some (a, b) → rfind p (s <> t) ≡ some (s <> a, b)
unfolding rfind
rfind-behind p String.[] t a b h = rw (nil-append, nil-append) h
rfind-behind p (String.◌∷◌ c s) t a b h =
    rw (cons-append, cons-append) (ground (arith, rfind-behind p s t a b h))

pub rfind-Lacks : (d : Char) (p s : String) → Lacks (code d) s → rfind (String.◌∷◌ d p) s ≡ none
unfolding rfind all_chars starts_with strip_prefix
rfind-Lacks d p String.[] h = refl
rfind-Lacks d p (String.◌∷◌ c s) h = ground (arith, rfind-Lacks d p s)

starts_with_self : (p t : String) → starts_with (p <> t) p ≡ true
unfolding starts_with
starts_with_self p t =
    ap (λ o. elim o [ none ↦ false | some rest ↦ true ]) (strip_prefix-append p t)

found_here :
    (d : Char) (p t : String)
    → Lacks (code d) (p <> t)
    → rfind (String.◌∷◌ d p) (String.◌∷◌ d p <> t) ≡ some ("", String.◌∷◌ d p <> t)
unfolding rfind
found_here d p t h = rw cons-append (
    ground
      (arith, rfind-Lacks d p (p <> t) h, rw cons-append at (starts_with_self (String.◌∷◌ d p) t)))

-- A text behind which its first character does not come again is found at its last occurrence.
pub rfind-last :
    (d : Char) (p s t : String)
    → Lacks (code d) (p <> t)
    → rfind (String.◌∷◌ d p) (s <> (String.◌∷◌ d p <> t)) ≡ some (s, String.◌∷◌ d p <> t)
rfind-last d p s t h =
    rfind-behind (String.◌∷◌ d p) s (String.◌∷◌ d p <> t) "" (String.◌∷◌ d p <> t)
      (found_here d p t h)
    ∙ ap (λ front. some (front, String.◌∷◌ d p <> t)) (append-nil s)
