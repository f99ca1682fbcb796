-- ===== src/Common/Text.antt =====
-- The `str` methods that the program calls, over the native texts.
pub mod Splits
use Prim.Native.Char.{Char, code}
use Prim.Native.Nat.{ℕ, suc, ◌+◌}
use Prim.Native.String.{String, ◌++◌ as ◌<>◌}
use mathlib.Core.Path.{◌≡◌, refl, sym, ap, ◌∙◌}
use mathlib.Core.Bool.{Bool, true, false, not, ◌&&◌, ◌||◌}
use mathlib.Core.Option.{Option, none, some, none-ne-some}
use mathlib.Core.List.{List, [], ◌∷◌}
use mathlib.Core.Logic.{inl, inr}
use native.Mathlib.Omega.{arith}
use text.Mathlib.TextLemmas.{cons-append, nil-append, append_cancel_left}
use text.Mathlib.TextEquality.{eq_iff}
use openshell_driver_lxd.Common.Lists.{All}
use openshell_driver_lxd.Common.Tests.{
  string_eq, Bool-cases, Bool-ext, if◌then◌else◌, ◌==◌, nat_eq, leb, nat_beq,
}

-- `is_empty()`
abbrev pub is_empty : String → Bool
is_empty String.[] = true
is_empty (String.◌∷◌ c s) = false

-- `s.strip_prefix(p)`
unfoldable pub strip_prefix : String → String → Option String
strip_prefix s String.[] = some s
strip_prefix String.[] (String.◌∷◌ d p) = none
strip_prefix (String.◌∷◌ c s) (String.◌∷◌ d p) =
    if nat_beq (code c) (code d) then strip_prefix s p else none

pub strip_prefix-append : (p s : String) → strip_prefix (p <> s) p ≡ some s
unfolding strip_prefix
strip_prefix-append String.[] s = rw nil-append
strip_prefix-append (String.◌∷◌ d p) s = rw cons-append (ground (arith, strip_prefix-append p s))

-- A text that equals one literal equals no other.
pub eq_excludes : (s a b : String) → (s == a) ≡ true → (a == b) ≡ false → (s == b) ≡ false
eq_excludes s a b h differ = rw ((eq_iff s a).0 h) differ

-- `s.starts_with(p)`
unfoldable pub starts_with : String → String → Bool
starts_with s p = elim (strip_prefix s p) [ none ↦ false | some rest ↦ true ]

-- `s.chars().all(p)`, on the code points.
unfoldable pub all_chars : (ℕ → Bool) → String → Bool
all_chars p String.[] = true
all_chars p (String.◌∷◌ c s) = p (code c) && all_chars p s

-- `s.len()` of an ASCII text.
unfoldable pub len_ascii : String → ℕ
len_ascii String.[] = 0
len_ascii (String.◌∷◌ c s) = suc (len_ascii s)

-- `s.split_once(c)`, for a character given by its code.
unfoldable pub split_once : ℕ → String → Option (String × String)
split_once d String.[] = none
split_once d (String.◌∷◌ c s) =
    let rest = split_once d s in
    if nat_beq (code c) d
    then some ("", s)
    else elim rest [ none ↦ none | some (a, b) ↦ some (String.◌∷◌ c a, b) ]

-- `s.rsplit_once(c)`
unfoldable pub rsplit_once : ℕ → String → Option (String × String)
rsplit_once d String.[] = none
rsplit_once d (String.◌∷◌ c s) =
    let rest = rsplit_once d s in
    elim rest [
      | some (a, b) ↦ some (String.◌∷◌ c a, b)
      | none ↦ if nat_beq (code c) d then some ("", s) else none
    ]

-- `s.split(c).next()` and `s.rsplit(c).next()`: what stands before the first and after the last `c`.
abbrev pub before_first : ℕ → String → String
before_first d s = elim (split_once d s) [ none ↦ s | some (a, b) ↦ a ]

abbrev pub after_last : ℕ → String → String
after_last d s = elim (rsplit_once d s) [ none ↦ s | some (a, b) ↦ b ]

-- `s.contains(t)`
unfoldable pub contains_text : String → String → Bool
unfolding starts_with strip_prefix
contains_text String.[] t = starts_with "" t
contains_text (String.◌∷◌ c s) t = starts_with (String.◌∷◌ c s) t || contains_text s t

-- `s.rfind(p)` as the parts of `s` before the last `p` and from there on, for a text `p` that is not
-- empty.
unfoldable pub rfind : String → String → Option (String × String)
rfind p String.[] = none
rfind p (String.◌∷◌ c s) =
    let rest = rfind p s in
    elim rest [
      | some (a, b) ↦ some (String.◌∷◌ c a, b)
      | none ↦ if starts_with (String.◌∷◌ c s) p then some ("", String.◌∷◌ c s) else none
    ]

abbrev pub is_digit : ℕ → Bool
is_digit c = leb b'0' c && leb c b'9'

abbrev pub is_alphabetic : ℕ → Bool
is_alphabetic c = (leb b'a' c && leb c b'z') || (leb b'A' c && leb c b'Z')

-- `is_ascii_alphanumeric`, `is_ascii_hexdigit`
abbrev pub is_alphanumeric : ℕ → Bool
is_alphanumeric c = is_digit c || is_alphabetic c

abbrev pub is_hexdigit : ℕ → Bool
is_hexdigit c = is_digit c || ((leb b'a' c && leb c b'f') || (leb b'A' c && leb c b'F'))

-- `s.strip_suffix(p)`
unfoldable pub strip_suffix : String → String → Option String
strip_suffix String.[] p = if is_empty p then some "" else none
strip_suffix (String.◌∷◌ c s) p =
    let rest = strip_suffix s p in
    if String.◌∷◌ c s == p
    then some ""
    else elim rest [ none ↦ none | some front ↦ some (String.◌∷◌ c front) ]

-- A text without the prefix `p` is no text that begins with `p`.
pub prefixed-ne : (p x k : String) → strip_prefix k p ≡ none → (p <> x == k) ≡ false
prefixed-ne p x k h = elim (Bool-cases (p <> x == k)) [
  | inl same ↦
      let e : strip_prefix k p ≡ some x =
        rw ((eq_iff (p <> x) k).0 same) at (strip_prefix-append p x) in
      absurd (none-ne-some x (sym h ∙ e))
  | inr differ ↦ differ
]

-- Texts behind one prefix are equal as they are without it.
pub prefixed-eq : (p x y : String) → (p <> x == p <> y) ≡ (x == y)
prefixed-eq p x y =
    Bool-ext (p <> x == p <> y) (x == y)
      (λ h. (eq_iff x y).1 (append_cancel_left p x y ((eq_iff (p <> x) (p <> y)).0 h)))
      (λ h. (eq_iff (p <> x) (p <> y)).1 (ap (λ t. p <> t) ((eq_iff x y).0 h)))

pub eq_comm : (s t : String) → (s == t) ≡ (t == s)
eq_comm s t =
    Bool-ext (s == t) (t == s) (λ h. (eq_iff t s).1 (sym ((eq_iff s t).0 h)))
      (λ h. (eq_iff s t).1 (sym ((eq_iff t s).0 h)))

abbrev lower : ℕ → ℕ
lower c = if leb b'A' c && leb c b'Z' then c + 32 else c

-- `s.eq_ignore_ascii_case(t)`
unfoldable pub eq_ignore_ascii_case : String → String → Bool
eq_ignore_ascii_case String.[] String.[] = true
eq_ignore_ascii_case (String.◌∷◌ c s) (String.◌∷◌ d t) =
    nat_beq (lower (code c)) (lower (code d)) && eq_ignore_ascii_case s t
eq_ignore_ascii_case _ _ = false

abbrev cons_first : Char → List String → List String
cons_first c [] = String.◌∷◌ c "" ∷ []
cons_first c (p ∷ ps) = String.◌∷◌ c p ∷ ps

-- `s.split(c)`
unfoldable pub split : ℕ → String → List String
split d String.[] = "" ∷ []
split d (String.◌∷◌ c s) =
    let rest = split d s in if nat_beq (code c) d then "" ∷ rest else cons_first c rest

abbrev pub Lacks : ℕ → String → Type 0
Lacks d s = all_chars (λ c. not (nat_beq c d)) s ≡ true

cons_first-Lacks :
    (d : ℕ) (c : Char) (ps : List String)
    → nat_beq (code c) d ≡ false
    → All (Lacks d) ps
    → All (Lacks d) (cons_first c ps)
unfolding all_chars
cons_first-Lacks d c [] h k = (rw h refl, tt)
cons_first-Lacks d c (p ∷ ps) h k = (rw h k.0, k.1)

nothing-Lacks : (d : ℕ) → Lacks d ""
unfolding all_chars
nothing-Lacks d = refl

-- No piece of a text that was split at `d` has a `d` in it.
pub split-Lacks : (d : ℕ) (s : String) → All (Lacks d) (split d s)
unfolding split
split-Lacks d String.[] = (nothing-Lacks d, tt)
split-Lacks d (String.◌∷◌ c s) = elim (Bool-cases (nat_beq (code c) d)) [
  | inl here ↦ rw here (nothing-Lacks d, split-Lacks d s)
  | inr not_here ↦ rw not_here (cons_first-Lacks d c (split d s) not_here (split-Lacks d s))
]
