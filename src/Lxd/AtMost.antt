-- ===== src/Lxd/AtMost.antt =====
-- How often an action makes a call: `AtMost p n m` bounds those that `p` holds of.
use openshell_driver_lxd.Common.{
  ℕ, ◌+◌, ◌≤◌, ap, arith, Bool, true, false, Bool-cases, inl, inr, if◌then◌else◌, length,
}
use openshell_driver_lxd.Lxd.{Lxd, Request}
use openshell_driver_lxd.Lxd.Types.{Result, ok, err}
use openshell_driver_lxd.Lxd.Actions.{World, Action, continue, ◌>>=◌, send}
use openshell_driver_lxd.Lxd.Quiet.{logged, Quiet}
use openshell_driver_lxd.Errors.{DriverError}

pub record AtMost {L : Lxd} {A : Type 0} (p : Request → Bool) (n : ℕ) (m : Action L A)
    : Type 0 where
  pub at : (w : World L) → length (logged p (m w).1) ≤ n + length (logged p w)

module _ {L : Lxd} {A : Type 0} {p : Request → Bool} where
  pub AtMost-Quiet : (n : ℕ) (m : Action L A) → Quiet p m → AtMost p n m
  AtMost-Quiet n m q = record { at = λ w. omega (arith, ap length (q.at w)) }

  pub AtMost-if :
      (b : Bool) (n : ℕ) (x y : Action L A)
      → AtMost p n x
      → AtMost p n y
      → AtMost p n (if b then x else y)
  AtMost-if true n x y h k = h
  AtMost-if false n x y h k = k

module _ {L : Lxd} {A B : Type 0} {p : Request → Bool} where
  AtMost-continue :
      (n : ℕ) (r : Result DriverError A) (f : A → Action L B)
      → ((a : A) → AtMost p n (f a))
      → AtMost p n (continue r f)
  AtMost-continue n (ok a) f q = q a
  AtMost-continue n (err e) f q = record { at = λ w. omega arith }

  pub AtMost-bind :
      (a b n : ℕ) (m : Action L A) (f : A → Action L B)
      → a + b ≤ n
      → AtMost p a m
      → ((x : A) → AtMost p b (f x))
      → AtMost p n (m >>= f)
  unfolding ◌>>=◌
  AtMost-bind a b n m f h q r = record {
    at = λ w. let (x, v) = m w in omega (arith, (AtMost-continue b x f r).at v, q.at w);
  }

module _ {L : Lxd} {p : Request → Bool} where
  pub AtMost-send : (r : Request) → AtMost {L = L} p 1 (send r)
  unfolding send
  AtMost-send r = record {
    at = λ w. elim (Bool-cases (p r)) [ inl h ↦ ground (arith, h) | inr h ↦ ground (arith, h) ];
  }
