-- ===== src/Lxd/Client/Quiet.antt =====
-- Which calls a chain of the client makes, and the chain as an action of the driver.
use openshell_driver_lxd.Common.{
  ◌≡◌, refl, ◌∙◌, ap, ◌∷◌, Bool, true, false, if◌then◌else◌, string_eq,
}
use openshell_driver_lxd.Lxd.{Lxd, Request}
use openshell_driver_lxd.Lxd.Types.{LxdError, Result, ok, err}
use openshell_driver_lxd.Lxd.Actions.{World, Action}
use openshell_driver_lxd.Lxd.Quiet.{logged, Quiet}
use openshell_driver_lxd.Lxd.Client.{Chain, done, fail, outcome, follow, ◌>>=◌, call}
use openshell_driver_lxd.Errors.{DriverError}

pub record Silent {L : Lxd} {A : Type 0} (p : Request → Bool) (m : Chain L A) : Type 0 where
  pub at : (w : World L) → logged p (m w).1 ≡ logged p w

module _ {L : Lxd} {A : Type 0} {p : Request → Bool} where
  pub Silent-done : (a : A) → Silent {L = L} p (done a)
  unfolding done
  Silent-done a = record { at = λ w. refl }

  pub Silent-fail : (e : LxdError) → Silent {L = L} {A = A} p (fail e)
  unfolding fail
  Silent-fail e = record { at = λ w. refl }

  pub Silent-outcome : (m : Chain L A) → Silent p m → Silent p (outcome m)
  unfolding outcome
  Silent-outcome m q = record { at = λ w. q.at w }

  pub Silent-if :
      (b : Bool) (m n : Chain L A) → Silent p m → Silent p n → Silent p (if b then m else n)
  Silent-if true m n q r = q
  Silent-if false m n q r = r

module _ {L : Lxd} {A B : Type 0} {p : Request → Bool} where
  Silent-follow :
      (r : Result LxdError A) (f : A → Chain L B)
      → ((a : A) → Silent p (f a))
      → Silent p (follow r f)
  Silent-follow (ok a) f q = q a
  Silent-follow (err e) f q = record { at = λ w. refl }

  pub Silent-bind :
      (m : Chain L A) (f : A → Chain L B)
      → Silent p m
      → ((a : A) → Silent p (f a))
      → Silent p (m >>= f)
  unfolding ◌>>=◌
  Silent-bind m f q r = record { at = λ w. let (a, v) = m w in (Silent-follow a f r).at v ∙ q.at w }

module _ {L : Lxd} {p : Request → Bool} where
  pub Silent-call : (r : Request) → p r ≡ false → Silent {L = L} p (call r)
  unfolding call
  Silent-call r h = record { at = λ w. ap (λ b. if b then r ∷ logged p w else logged p w) h }

pub ruleset silent_rules =
    (Silent-done, Silent-fail, Silent-outcome, Silent-if, Silent-bind, Silent-call)

-- `map_err`
abbrev pub mapped :
    {A : Type 0} → (LxdError → DriverError) → Result LxdError A → Result DriverError A
mapped f (ok a) = ok a
mapped f (err e) = err (f e)

module _ {L : Lxd} {A : Type 0} where
  -- A chain under `map_err` and `?`.
  unfoldable pub through : (LxdError → DriverError) → Chain L A → Action L A
  through f m w = let (r, v) = m w in (mapped f r, v)

  pub Quiet-through :
      {p : Request → Bool} (f : LxdError → DriverError) (m : Chain L A)
      → Silent p m
      → Quiet p (through f m)
  unfolding through
  Quiet-through f m q = record { at = λ w. q.at w }
