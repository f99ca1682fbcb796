-- ===== src/Lxd/Quiet.antt =====
-- Which calls an action makes: `Quiet p m` says that it makes none that `p` holds of. One rule for
-- each way to build an action.
use openshell_driver_lxd.Common.{
  ℕ, String, Option, none, some, ◌≡◌, refl, ◌∙◌, ap, Bool, true, false, if◌then◌else◌, List, ◌∷◌,
  keep, string_eq,
}
use openshell_driver_lxd.Lxd.{Lxd, Request}
use openshell_driver_lxd.Lxd.Types.{Result, ok, err}
use openshell_driver_lxd.Lxd.Actions.{
  World, Action, pure, raise, attempt, continue, ◌>>=◌, try_send, send, sleep, read_file, take_lock,
  drop_lock,
}
use openshell_driver_lxd.Errors.{DriverError}

-- The calls that `p` holds of, the last one first.
abbrev pub logged : {L : Lxd} → (Request → Bool) → World L → List Request
logged p w = keep p w.calls

pub record Quiet {L : Lxd} {A : Type 0} (p : Request → Bool) (m : Action L A) : Type 0 where
  pub at : (w : World L) → logged p (m w).1 ≡ logged p w

module _ {L : Lxd} {A : Type 0} {p : Request → Bool} where
  pub Quiet-pure : (a : A) → Quiet {L = L} p (pure a)
  unfolding pure
  Quiet-pure a = record { at = λ w. refl }

  pub Quiet-raise : (e : DriverError) → Quiet {L = L} {A = A} p (raise e)
  unfolding raise
  Quiet-raise e = record { at = λ w. refl }

  pub Quiet-attempt : (m : Action L A) → Quiet p m → Quiet p (attempt m)
  unfolding attempt
  Quiet-attempt m q = record { at = λ w. q.at w }

  pub Quiet-if :
      (b : Bool) (m n : Action L A) → Quiet p m → Quiet p n → Quiet p (if b then m else n)
  Quiet-if true m n q r = q
  Quiet-if false m n q r = r

  pub Quiet-option :
      {X : Type 0} (o : Option X) (m : Action L A) (f : X → Action L A)
      → Quiet p m
      → ((x : X) → Quiet p (f x))
      → Quiet p (elim o [ none ↦ m | some x ↦ f x ])
  Quiet-option none m f q r = q
  Quiet-option (some x) m f q r = r x

  pub Quiet-result :
      {E X : Type 0} (o : Result E X) (m : E → Action L A) (f : X → Action L A)
      → ((e : E) → Quiet p (m e))
      → ((x : X) → Quiet p (f x))
      → Quiet p (elim o [ err e ↦ m e | ok x ↦ f x ])
  Quiet-result (err e) m f q r = q e
  Quiet-result (ok x) m f q r = r x

module _ {L : Lxd} {A B : Type 0} {p : Request → Bool} where
  pub Quiet-continue :
      (r : Result DriverError A) (f : A → Action L B)
      → ((a : A) → Quiet p (f a))
      → Quiet p (continue r f)
  Quiet-continue (ok a) f q = q a
  Quiet-continue (err e) f q = record { at = λ w. refl }

  pub Quiet-bind :
      (m : Action L A) (f : A → Action L B)
      → Quiet p m
      → ((a : A) → Quiet p (f a))
      → Quiet p (m >>= f)
  unfolding ◌>>=◌
  Quiet-bind m f q r = record {
    at = λ w. let (a, w') = m w in (Quiet-continue a f r).at w' ∙ q.at w;
  }

module _ {L : Lxd} {p : Request → Bool} where
  pub Quiet-try_send : (r : Request) → p r ≡ false → Quiet {L = L} p (try_send r)
  unfolding try_send
  Quiet-try_send r h = record { at = λ w. ap (λ b. if b then r ∷ logged p w else logged p w) h }

  pub Quiet-send : (r : Request) → p r ≡ false → Quiet {L = L} p (send r)
  unfolding send
  Quiet-send r h = record { at = λ w. ap (λ b. if b then r ∷ logged p w else logged p w) h }

  pub Quiet-sleep : (millis : ℕ) → Quiet {L = L} p (sleep millis)
  unfolding sleep
  Quiet-sleep millis = record { at = λ w. refl }

  pub Quiet-read_file : (path : String) → Quiet {L = L} p (read_file path)
  unfolding read_file
  Quiet-read_file path = record { at = λ w. refl }

  pub Quiet-take_lock : (name : String) → Quiet {L = L} p (take_lock name)
  unfolding take_lock
  Quiet-take_lock name = record { at = λ w. refl }

  pub Quiet-drop_lock : (name : String) → Quiet {L = L} p (drop_lock name)
  unfolding drop_lock
  Quiet-drop_lock name = record { at = λ w. refl }

pub ruleset quiet_rules = (
  Quiet-pure, Quiet-raise, Quiet-attempt, Quiet-if, Quiet-option, Quiet-result, Quiet-bind,
  Quiet-try_send, Quiet-send, Quiet-sleep, Quiet-read_file, Quiet-take_lock, Quiet-drop_lock,
)
