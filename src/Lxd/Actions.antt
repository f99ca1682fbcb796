-- ===== src/Lxd/Actions.antt =====
-- The driver's methods as actions: each returns a result and the world that it leaves, also beside
-- an error.
use openshell_driver_lxd.Common.{
  ℕ, String, List, ◌∷◌, if◌then◌else◌, contains, string_eq, ◌==◌, not, keep, leb,
}
use openshell_driver_lxd.Lxd.{Lxd, Request, Response}
use openshell_driver_lxd.Lxd.Types.{LxdError, Result, ok, err}
use openshell_driver_lxd.Errors.{DriverError, from_lxd}

-- The state of the daemon, the calls made so far (the last one first), and the names that have an
-- entry in the driver's table of lifecycle locks.
pub record World (L : Lxd) : Type 0 where
  pub state : L.State
  pub calls : List Request
  pub locks : List String

abbrev pub Action : Lxd → Type 0 → Type 0
Action L A = World L → Result DriverError A × World L

module _ {L : Lxd} {A : Type 0} where
  unfoldable pub pure : A → Action L A
  pure a w = (ok a, w)

  unfoldable pub raise : DriverError → Action L A
  raise e w = (err e, w)

  -- The result of an action as a value, to match on.
  unfoldable pub attempt : Action L A → Action L (Result DriverError A)
  attempt m w = let (r, w') = m w in (ok r, w')

module _ {L : Lxd} {A B : Type 0} where
  abbrev pub continue : Result DriverError A → (A → Action L B) → Action L B
  continue (ok a) f w = f a w
  continue (err e) f w = (err e, w)

  infixl 10 ◌>>=◌ ◌>>◌
  unfoldable pub ◌>>=◌ : Action L A → (A → Action L B) → Action L B
  ◌>>=◌ m f w = let (r, w') = m w in continue r f w'

  abbrev pub ◌>>◌ : Action L A → Action L B → Action L B
  m >> n = m >>= λ _. n

module _ {L : Lxd} where
  -- A call, with the client's own error as a value.
  unfoldable pub try_send : (r : Request) → Action L (Result LxdError (Response r))
  try_send r w =
      let (answer, state) = L.answer r w.state in
      (ok answer, record w { state = state; calls = r ∷ w.calls })

  -- A call under `?`.
  unfoldable pub send : (r : Request) → Action L (Response r)
  send r w =
      let (answer, state) = L.answer r w.state in
      (from_lxd answer, record w { state = state; calls = r ∷ w.calls })

  unfoldable pub sleep : ℕ → Action L (Unit {0})
  sleep millis w = (ok tt, record w { state = L.sleep millis w.state })

  -- `tokio::fs::read`
  unfoldable pub read_file : String → Action L (Result String (List ℕ))
  read_file path w =
      let (content, state) = L.read_file path w.state in (ok content, record w { state = state })

  -- `instance_lifecycle_lock`: the entry of a name in the table, made on first use.
  unfoldable pub take_lock : String → Action L (Unit {0})
  take_lock name w =
      (ok tt, record w { locks = if contains w.locks name then w.locks else name ∷ w.locks })

  -- The end of `delete_sandbox`: the entry goes unless another task holds the lock too.
  unfoldable pub drop_lock : String → Action L (Unit {0})
  drop_lock name w = (
    ok tt,
    record w {
      locks =
          if leb (L.holders name w.state) 2
          then keep (λ other. not (other == name)) w.locks
          else w.locks;
    },
  )
