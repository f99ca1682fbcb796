-- ===== src/Common/Decimal.antt =====
-- `to_string` and `parse::<u32>` of numbers.
use Prim.Native.Char.{Char, code}
use Prim.Native.Nat.{ℕ, zero, suc, ◌+◌, ◌-◌, ◌*◌, ◌/◌, ◌%◌, ◌≤◌, ◌<◌}
use Prim.Native.String.{String}
use mathlib.Core.Path.{◌≡◌, refl, ◌∙◌}
use mathlib.Core.Bool.{true}
use mathlib.Core.Option.{Option, none, some}
use native.Mathlib.Omega.{arith}
use openshell_driver_lxd.Common.Tests.{if◌then◌else◌, leb, ltb, ltb→lt, nat_beq, Bool-cases}
use mathlib.Core.Logic.{inl, inr}
use openshell_driver_lxd.Common.Text.{is_digit, all_chars}

abbrev digit : ℕ → Char
digit zero = "0"
digit (suc zero) = "1"
digit (suc (suc zero)) = "2"
digit (suc (suc (suc zero))) = "3"
digit (suc (suc (suc (suc zero)))) = "4"
digit (suc (suc (suc (suc (suc zero))))) = "5"
digit (suc (suc (suc (suc (suc (suc zero)))))) = "6"
digit (suc (suc (suc (suc (suc (suc (suc zero))))))) = "7"
digit (suc (suc (suc (suc (suc (suc (suc (suc zero)))))))) = "8"
digit _ = "9"

code-digit : (n : ℕ) → n < 10 → code (digit n) ≡ b'0' + n
code-digit zero h = refl
code-digit (suc zero) h = refl
code-digit (suc (suc zero)) h = refl
code-digit (suc (suc (suc zero))) h = refl
code-digit (suc (suc (suc (suc zero)))) h = refl
code-digit (suc (suc (suc (suc (suc zero))))) h = refl
code-digit (suc (suc (suc (suc (suc (suc zero)))))) h = refl
code-digit (suc (suc (suc (suc (suc (suc (suc zero))))))) h = refl
code-digit (suc (suc (suc (suc (suc (suc (suc (suc zero)))))))) h = refl
code-digit (suc (suc (suc (suc (suc (suc (suc (suc (suc zero))))))))) h = refl
code-digit (suc (suc (suc (suc (suc (suc (suc (suc (suc (suc n)))))))))) h = absurd (omega arith)

-- The digits of a number in front of a text, on fuel.
unfoldable pub show_onto : ℕ → ℕ → String → String
show_onto zero n s = s
show_onto (suc f) n s =
    let more = show_onto f (n / 10) (String.◌∷◌ (digit (n % 10)) s) in
    if ltb n 10 then String.◌∷◌ (digit n) s else more

-- `n.to_string()`
unfoldable pub show : ℕ → String
show n = show_onto (suc n) n ""

unfoldable pub parse_digits : ℕ → String → Option ℕ
parse_digits acc String.[] = some acc
parse_digits acc (String.◌∷◌ c s) =
    if is_digit (code c) then parse_digits (acc * 10 + (code c - b'0')) s else none

abbrev pub u32_max : ℕ
u32_max = 4294967295

abbrev checked : Option ℕ → Option ℕ
checked none = none
checked (some n) = if leb n u32_max then some n else none

-- The digits after an optional `+`: at least one, and no overflow.
unfoldable pub parse_unsigned : String → Option ℕ
parse_unsigned String.[] = none
parse_unsigned (String.◌∷◌ c s) = checked (parse_digits 0 (String.◌∷◌ c s))

-- `s.parse::<u32>().ok()`
unfoldable pub parse_u32 : String → Option ℕ
parse_u32 String.[] = none
parse_u32 (String.◌∷◌ c s) =
    if nat_beq (code c) b'+' then parse_unsigned s else parse_unsigned (String.◌∷◌ c s)

parse_digits-cons :
    (acc n m : ℕ) (s : String)
    → n < 10
    → acc * 10 + n ≡ m
    → parse_digits acc (String.◌∷◌ (digit n) s) ≡ parse_digits m s
unfolding parse_digits
parse_digits-cons acc n m s h e =
    let e' : acc * 10 + (48 + n - 48) ≡ m = omega arith in rw (code-digit n h, e') (ground arith)

parse_digits-show_onto :
    (f n : ℕ) (s : String) → n < f → parse_digits 0 (show_onto f n s) ≡ parse_digits n s
unfolding show_onto
parse_digits-show_onto zero n s h = absurd (omega arith)
parse_digits-show_onto (suc f) n s h = elim (Bool-cases (ltb n 10)) [
  | inl small ↦ rw small (parse_digits-cons 0 n n s (ltb→lt n 10 small) (omega arith))
  | inr large ↦ rw large (
      parse_digits-show_onto f (n / 10) _ (ground arith)
      ∙ parse_digits-cons (n / 10) (n % 10) n s (omega arith) (omega arith))
]

-- A printed number begins with a digit.
show_onto-cons :
    (f n : ℕ) (s : String)
    → n < f
    → (d : ℕ) × (t : String) × (d < 10) × (show_onto f n s ≡ String.◌∷◌ (digit d) t)
unfolding show_onto
show_onto-cons zero n s h = absurd (omega arith)
show_onto-cons (suc f) n s h = elim (Bool-cases (ltb n 10)) [
  | inl small ↦ (n, s, ltb→lt n 10 small, rw small)
  | inr large ↦
      let (d, t, below, e) =
        show_onto-cons f (n / 10) (String.◌∷◌ (digit (n % 10)) s) (ground arith) in
      (d, t, below, rw large e)
]

plain_digits :
    (d : ℕ) (t : String)
    → d < 10
    → parse_u32 (String.◌∷◌ (digit d) t) ≡ checked (parse_digits 0 (String.◌∷◌ (digit d) t))
unfolding parse_u32 parse_unsigned
plain_digits d t h = rw (code-digit d h) (ground arith)

fits : (n : ℕ) → n ≤ u32_max → checked (parse_digits n "") ≡ some n
unfolding parse_digits
fits n h = ground arith

-- Printing a `u32` and reading it back gives the number.
pub parse_u32-show : (n : ℕ) → n ≤ u32_max → parse_u32 (show n) ≡ some n
unfolding show
parse_u32-show n h =
    let (d, t, below, e) = show_onto-cons (suc n) n "" (omega arith) in
    rw e (
      plain_digits d t below
      ∙ rw (← e) (rw (parse_digits-show_onto (suc n) n "" (omega arith)) (fits n h)))

digits-digit :
    (n : ℕ) (s : String)
    → n < 10
    → all_chars is_digit s ≡ true
    → all_chars is_digit (String.◌∷◌ (digit n) s) ≡ true
unfolding all_chars
digits-digit n s h k =
    let low : leb b'0' (code (digit n)) ≡ true = rw (code-digit n h) (ground arith) in
    let high : leb (code (digit n)) b'9' ≡ true = rw (code-digit n h) (ground arith) in
    rw (low, high) k

digits-show_onto :
    (f n : ℕ) (s : String)
    → n < f
    → all_chars is_digit s ≡ true
    → all_chars is_digit (show_onto f n s) ≡ true
unfolding show_onto
digits-show_onto zero n s h k = k
digits-show_onto (suc f) n s h k = elim (Bool-cases (ltb n 10)) [
  | inl small ↦ rw small (digits-digit n s (ltb→lt n 10 small) k)
  | inr large ↦ rw large (
      digits-show_onto f (n / 10) (String.◌∷◌ (digit (n % 10)) s) (ground arith)
        (digits-digit (n % 10) s (omega arith) k))
]

-- A number is printed in digits.
pub digits-show : (n : ℕ) → all_chars is_digit (show n) ≡ true
unfolding show all_chars
digits-show n = digits-show_onto (suc n) n "" (omega arith) refl
