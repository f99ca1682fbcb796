-- ===== src/Lxd/Client.antt =====
-- crates/lxd-client/src: methods of the client that are made of several calls, as chains of calls that
-- end at the first error.
pub mod Quiet
use openshell_driver_lxd.Common.{List, ◌∷◌}
use openshell_driver_lxd.Lxd.{Lxd, Request, Response}
use openshell_driver_lxd.Lxd.Types.{LxdError, Result, ok, err}
use openshell_driver_lxd.Lxd.Actions.{World}

abbrev pub Chain : Lxd → Type 0 → Type 0
Chain L A = World L → Result LxdError A × World L

module _ {L : Lxd} {A : Type 0} where
  unfoldable pub done : A → Chain L A
  done a w = (ok a, w)

  unfoldable pub fail : LxdError → Chain L A
  fail e w = (err e, w)

  -- The result of a chain as a value, to match on.
  unfoldable pub outcome : Chain L A → Chain L (Result LxdError A)
  outcome m w = let (r, v) = m w in (ok r, v)

module _ {L : Lxd} {A B : Type 0} where
  abbrev pub follow : Result LxdError A → (A → Chain L B) → Chain L B
  follow (ok a) f w = f a w
  follow (err e) f w = (err e, w)

  infixl 10 ◌>>=◌ ◌>>◌
  unfoldable pub ◌>>=◌ : Chain L A → (A → Chain L B) → Chain L B
  ◌>>=◌ m f w = let (r, v) = m w in follow r f v

  abbrev pub ◌>>◌ : Chain L A → Chain L B → Chain L B
  m >> n = m >>= λ _. n

module _ {L : Lxd} where
  unfoldable pub call : (r : Request) → Chain L (Response r)
  call r w =
      let (answer, state) = L.answer r w.state in
      (answer, record w { state = state; calls = r ∷ w.calls })
