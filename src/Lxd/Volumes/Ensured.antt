-- ===== src/Lxd/Volumes/Ensured.antt =====
-- crates/lxd-client/src/storage.rs: what a success of `ensure_single_file_volume` tells.
use openshell_driver_lxd.Common.{ℕ, String, List, ◌∷◌, ◌≡◌, true}
use openshell_driver_lxd.Common.Dict.{Dict}
use openshell_driver_lxd.Lxd.{Lxd, Request, get_volume, update_volume, wait_for}
use openshell_driver_lxd.Lxd.Types.{LxdError, Result, ok}
use openshell_driver_lxd.Lxd.Actions.{World}
use openshell_driver_lxd.Lxd.Volumes.{Entry, is_shifted, shifted_config}

module _ (tarball : List Entry → Result LxdError (List ℕ)) (L : Lxd) (pool name : String) where
  -- Read shifted with the last call, or asked to shift it and waited for that.
  pub data Settled : World L → Type 0 where
    read_shifted :
        {w : World L} (v : World L) (config : Dict String)
        → (L.answer (get_volume pool name) v.state).0 ≡ ok config
        → is_shifted config ≡ true
        → w.calls ≡ get_volume pool name ∷ v.calls
        → Settled w
    asked :
        {w : World L} (before : List Request) (id : String)
        → w.calls ≡ wait_for id ∷ update_volume pool name shifted_config ∷ before
        → Settled w

  abbrev Settles : Result LxdError (Unit {0}) × World L → Type 0
  Settles x = x.0 ≡ ok tt → Settled x.1
