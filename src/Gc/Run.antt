-- ===== src/Gc/Run.antt =====
-- crates/openshell-driver-lxd/src/gc.rs: the volumes that a clean-up removes, with the listing that it
-- saw them in.
use openshell_driver_lxd.Common.{
  ◌≡◌, refl, String, List, [], ◌∷◌, Option, none, some, Bool, true, false, nat_eq, string_eq,
  contains, length, ◌⊎◌,
}
use openshell_driver_lxd.Common.Text.{starts_with}
use openshell_driver_lxd.Lxd.{
  Lxd, Request, delete_image, wait_for, list_custom_volumes, delete_custom_volume,
}
use openshell_driver_lxd.Lxd.Types.{LxdError, Result, ok, err, Image, StorageVolume, Operation}
use openshell_driver_lxd.Lxd.Actions.{Action, continue, World, pure, ◌>>=◌, try_send}
use openshell_driver_lxd.Errors.{DriverError}
use openshell_driver_lxd.Gc.{
  supervisor_volume_name, dhcp_client_volume_name, count_answer, removal_answer, remove_images,
  remove_listed,
}

-- A volume that may go: it is in the driver's own project, it has the name of an auxiliary volume,
-- nothing uses it, and it is none of those to keep. Without a list of those to keep none may go.
pub record Spare (project : String) (in_use : List String) (volume : StorageVolume) : Type 0 where
  pub own : volume.project ≡ project
  pub auxiliary :
      (starts_with volume.name (supervisor_volume_name "") ≡ true)
      ⊎ (starts_with volume.name (dhcp_client_volume_name "") ≡ true)
  pub unused : length volume.used_by ≡ 0
  pub unneeded : contains in_use volume.name ≡ false

abbrev pub MayGo : String → Option (List String) → StorageVolume → Type 0
MayGo project none volume = ⊥
MayGo project (some in_use) volume = Spare project in_use volume

pub data Among {A : Type 0} (x : A) : List A → Type 0 where
  here : (xs : List A) → Among x (x ∷ xs)
  there : (y : A) (xs : List A) → Among x xs → Among x (y ∷ xs)

-- The world after one call.
abbrev pub after : (L : Lxd) → Request → World L → World L
after L r v = record v { state = (L.answer r v.state).1; calls = r ∷ v.calls }

abbrev pub removes_volume : Request → Bool
removes_volume (delete_custom_volume pool name location) = true
removes_volume _ = false

-- The worlds that can be got to from `w` by calls that remove no volume, and by removals of volumes
-- that may go and that stand in the last answer to a listing of their pool; the pair is the pool that
-- was listed last, with that answer.
pub data Run (L : Lxd) (project : String) (in_use : Option (List String)) (w : World L)
    : String × List StorageVolume → World L → Type 0 where
  begins : Run L project in_use w ("", []) w
  asks :
      (r : Request) {k : String × List StorageVolume} {v : World L}
      → removes_volume r ≡ false
      → Run L project in_use w k v
      → Run L project in_use w k (after L r v)
  lists :
      (pool : String) (volumes : List StorageVolume) {k : String × List StorageVolume} {v : World L}
      → (L.answer (list_custom_volumes pool) v.state).0 ≡ ok volumes
      → Run L project in_use w k v
      → Run L project in_use w (pool, volumes) (after L (list_custom_volumes pool) v)
  removes :
      (pool : String) (volumes : List StorageVolume) (volume : StorageVolume) {v : World L}
      → Among volume volumes
      → MayGo project in_use volume
      → Run L project in_use w (pool, volumes) v
      → Run L project in_use w
          (pool, volumes)
          (after L (delete_custom_volume pool volume.name volume.location) v)

module _ (L : Lxd) (project : String) (in_use : Option (List String)) (w : World L) where
  abbrev pub RunTo : String × List StorageVolume → World L → Type 0
  RunTo k v = Run L project in_use w k v

  -- An action that makes a run longer and leaves the last listing.
  pub record Keeps {A : Type 0} (k : String × List StorageVolume) (m : Action L A) : Type 0 where
    pub at : (v : World L) → RunTo k v → RunTo k (m v).1

  -- An action that makes a run longer.
  pub record Runs {A : Type 0} (m : Action L A) : Type 0 where
    pub at :
        (v : World L) (k : String × List StorageVolume)
        → RunTo k v
        → (k' : String × List StorageVolume) × RunTo k' (m v).1

  pub Keeps-Runs :
      {A : Type 0} (m : Action L A) → ((k : String × List StorageVolume) → Keeps k m) → Runs m
  Keeps-Runs m q = record { at = λ v k h. (k, (q k).at v h) }

  module _ {A : Type 0} (k : String × List StorageVolume) where
    pub Keeps-pure : (a : A) → Keeps k (pure a)
    unfolding pure
    Keeps-pure a = record { at = λ v h. h }

  pub Runs-pure : {A : Type 0} (a : A) → Runs (pure a)
  Runs-pure a = Keeps-Runs (pure a) λ k. Keeps-pure k a

  module _ (k : String × List StorageVolume) where
    pub Keeps-try_send : (r : Request) → removes_volume r ≡ false → Keeps k (try_send r)
    unfolding try_send
    Keeps-try_send r h = record { at = λ v s. asks r h s }

    Keeps-continue :
        {A B : Type 0} (r : Result DriverError A) (f : A → Action L B) (v : World L)
        → ((a : A) → Keeps k (f a))
        → RunTo k v
        → RunTo k (continue r f v).1
    Keeps-continue (ok a) f v q h = (q a).at v h
    Keeps-continue (err e) f v q h = h

    pub Keeps-bind :
        {A B : Type 0} (m : Action L A) (f : A → Action L B)
        → Keeps k m
        → ((a : A) → Keeps k (f a))
        → Keeps k (m >>= f)
    unfolding ◌>>=◌
    Keeps-bind m f q next = record {
      at = λ v h. let (r, u) = m v in Keeps-continue r f u next (q.at v h);
    }

    pub count_answer-Keeps :
        {A : Type 0} (prefix : String) (r : Result LxdError A)
        → Keeps k (count_answer L project prefix r)
    count_answer-Keeps prefix (ok a) = Keeps-pure k _
    count_answer-Keeps prefix (err e) = Keeps-pure k _

    module _ (prefix : String) where
      removal_answer-Keeps :
          (r : Result LxdError Operation) → Keeps k (removal_answer L project prefix r)
      removal_answer-Keeps (ok op) =
          Keeps-bind (try_send (wait_for op.id)) _ (Keeps-try_send (wait_for op.id) refl)
            λ r. count_answer-Keeps prefix r
      removal_answer-Keeps (err e) = Keeps-pure k _

      remove_images-Keeps : (images : List Image) → Keeps k (remove_images L project prefix images)
      unfolding remove_images
      remove_images-Keeps [] = Keeps-pure k _
      remove_images-Keeps (image ∷ images) =
          Keeps-bind (try_send (delete_image image.fingerprint)) _
            (Keeps-try_send (delete_image image.fingerprint) refl)
            λ r. Keeps-bind (removal_answer L project prefix r) _ (removal_answer-Keeps r) λ n.
              Keeps-bind (remove_images L project prefix images) _ (remove_images-Keeps images)
                λ rest. Keeps-pure k _

      pub remove_listed-Keeps :
          (r : Result LxdError (List Image)) → Keeps k (remove_listed L project prefix r)
      remove_listed-Keeps (ok images) = remove_images-Keeps _
      remove_listed-Keeps (err e) = Keeps-pure k _
