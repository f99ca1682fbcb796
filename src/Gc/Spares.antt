-- ===== src/Gc/Spares.antt =====
-- crates/openshell-driver-lxd/src/gc.rs: the runs of `remove_unused_volumes` and of `collect_lxd`.
use openshell_driver_lxd.Common.{
  ◌≡◌, refl, sym, subst, arith, String, List, [], ◌∷◌, Option, none, some, Bool, true, false,
  nat_eq, string_eq, if◌then◌else◌, keep, All, Bool-cases, inl, inr, eq_iff,
}
use openshell_driver_lxd.Lxd.{
  Lxd, Request, list_images, list_storage_pools, list_custom_volumes, delete_custom_volume,
}
use openshell_driver_lxd.Lxd.Types.{LxdError, Result, ok, err, StorageVolume}
use openshell_driver_lxd.Lxd.Actions.{Action, continue, World, pure, ◌>>=◌, try_send}
use openshell_driver_lxd.Errors.{DriverError}
use openshell_driver_lxd.Gc.{
  is_unused_aux_volume, count_answer, remove_listed, remove_volumes, remove_listed_volumes,
  collect_pools, collect_listed_pools, collect_volumes, collect,
}
use openshell_driver_lxd.Gc.Run.{
  Spare, MayGo, Among, here, there, Run, begins, removes, lists, asks, after, removes_volume, RunTo,
  Keeps, Runs, Keeps-Runs, Keeps-pure, Runs-pure, Keeps-try_send, Keeps-bind, count_answer-Keeps,
  remove_listed-Keeps,
}

unused-Spare :
    (project : String) (in_use : List String) (volume : StorageVolume)
    → is_unused_aux_volume project in_use volume ≡ true
    → Spare project in_use volume
unfolding is_unused_aux_volume
unused-Spare project in_use volume h = record {
  own = (eq_iff volume.project project).0 (ground arith);
  auxiliary = ground arith;
  unused = ground arith;
  unneeded = ground arith;
}

-- What is kept of a list is among it, and meets the condition.
keep-Among :
    {A : Type 0} (p : A → Bool) (xs : List A) (Q : A → Type 0)
    → ((x : A) → Among x xs → p x ≡ true → Q x)
    → All Q (keep p xs)
keep-Among p [] Q f = tt
keep-Among p (x ∷ xs) Q f =
    let more = keep-Among p xs Q (λ y a h. f y (there x xs a) h) in
    elim (Bool-cases (p x)) [
      | inl h ↦
          subst (λ b. All Q (if b then x ∷ keep p xs else keep p xs)) (sym h)
            (f x (here xs) h, more)
      | inr h ↦ subst (λ b. All Q (if b then x ∷ keep p xs else keep p xs)) (sym h) more
    ]

module _ (L : Lxd) (project prefix : String) (o : Option (List String)) (w : World L) where
  module _ (pool : String) (listed : List StorageVolume) where
    Keeps-removal :
        (volume : StorageVolume)
        → Among volume listed
        → MayGo project o volume
        → Keeps L project o w
            (pool, listed)
            (try_send (delete_custom_volume pool volume.name volume.location))
    unfolding try_send
    Keeps-removal volume among may = record { at = λ v s. removes pool listed volume among may s }

    remove_volumes-Keeps :
        (volumes : List StorageVolume)
        → All (λ volume. Among volume listed × MayGo project o volume) volumes
        → Keeps L project o w (pool, listed) (remove_volumes L project prefix pool volumes)
    unfolding remove_volumes
    remove_volumes-Keeps [] h = Keeps-pure L project o w (pool, listed) _
    remove_volumes-Keeps (volume ∷ volumes) h =
        Keeps-bind L project o w (pool, listed)
          (try_send (delete_custom_volume pool volume.name volume.location)) _
          (Keeps-removal volume h.0.0 h.0.1)
          λ r.
            Keeps-bind L project o w (pool, listed) (count_answer L project prefix r) _
              (count_answer-Keeps L project o w (pool, listed) prefix r)
              λ n.
                Keeps-bind L project o w (pool, listed)
                  (remove_volumes L project prefix pool volumes) _
                  (remove_volumes-Keeps volumes h.1)
                  λ rest. Keeps-pure L project o w (pool, listed) _

  Runs-continue :
      {A B : Type 0} (r : Result DriverError A) (f : A → Action L B) (v : World L)
      (k : String × List StorageVolume)
      → ((a : A) → Runs L project o w (f a))
      → RunTo L project o w k v
      → (k' : String × List StorageVolume) × RunTo L project o w k' (continue r f v).1
  Runs-continue (ok a) f v k q h = (q a).at v k h
  Runs-continue (err e) f v k q h = (k, h)

  Runs-bind :
      {A B : Type 0} (m : Action L A) (f : A → Action L B)
      → Runs L project o w m
      → ((a : A) → Runs L project o w (f a))
      → Runs L project o w (m >>= f)
  unfolding ◌>>=◌
  Runs-bind m f q next = record {
    at = λ v k h. let (k', s) = q.at v k h in let (r, u) = m v in Runs-continue r f u k' next s;
  }

  Runs-chain :
      {A B D : Type 0} (m : Action L A) (f : A → Action L B) (g : B → Action L D)
      → Runs L project o w (m >>= f)
      → ((b : B) → Runs L project o w (g b))
      → Runs L project o w (m >>= λ a. f a >>= g)
  unfolding ◌>>=◌
  Runs-chain {A = A} {B = B} m f g q next = record {
    at = λ v k h. let (k', s) = q.at v k h in let (r, u) = m v in chained r u k' s;
  }
    where
      chained :
          (r : Result DriverError A) (u : World L) (k' : String × List StorageVolume)
          → RunTo L project o w k' (continue r f u).1
          → (k'' : String × List StorageVolume) × RunTo L project o w k''
              (continue r (λ a. f a >>= g) u).1
      chained (ok a) u k' s = let (b, x) = f a u in Runs-continue b g x k' next s
      chained (err e) u k' s = (k', s)

module _ (L : Lxd) (project prefix : String) (in_use : List String) (w : World L) where
  -- The removals that follow the answer to a listing.
  answered-Runs :
      (pool : String) (r : Result LxdError (List StorageVolume)) (v : World L)
      (k : String × List StorageVolume)
      → (L.answer (list_custom_volumes pool) v.state).0 ≡ r
      → RunTo L project (some in_use) w k v
      → (k' : String × List StorageVolume) × RunTo L project
          (some in_use)
          w
          k'
          (remove_listed_volumes L project prefix in_use pool r
            (after L (list_custom_volumes pool) v)).1
  unfolding pure
  answered-Runs pool (ok volumes) v k same h = (
    (pool, volumes),
    (remove_volumes-Keeps L project prefix (some in_use) w pool volumes _ (
          keep-Among (is_unused_aux_volume project in_use) volumes _
            (λ x a u. (a, unused-Spare project in_use x u)))).at
        _ (lists pool volumes same h),
  )
  answered-Runs pool (err e) v k same h = (k, asks (list_custom_volumes pool) refl h)

  listing-Runs :
      (pool : String)
      → Runs L project (some in_use) w (
          try_send (list_custom_volumes pool) >>= λ r.
          remove_listed_volumes L project prefix in_use pool r)
  unfolding try_send ◌>>=◌
  listing-Runs pool = record {
    at = λ v k h. answered-Runs pool (L.answer (list_custom_volumes pool) v.state).0 v k refl h;
  }

  collect_pools-Runs :
      (pools : List String)
      → Runs L project (some in_use) w (collect_pools L project prefix in_use pools)
  unfolding collect_pools
  collect_pools-Runs [] = Runs-pure L project (some in_use) w _
  collect_pools-Runs (pool ∷ pools) =
      Runs-chain L project prefix (some in_use) w (try_send (list_custom_volumes pool)) _ _
        (listing-Runs pool)
        λ n.
          Runs-bind L project prefix (some in_use) w (collect_pools L project prefix in_use pools) _
            (collect_pools-Runs pools) λ rest. Runs-pure L project (some in_use) w _

  collect_listed_pools-Runs :
      (r : Result LxdError (List String))
      → Runs L project (some in_use) w (collect_listed_pools L project prefix in_use r)
  collect_listed_pools-Runs (ok pools) = collect_pools-Runs pools
  collect_listed_pools-Runs (err e) = Runs-pure L project (some in_use) w _

module _ (L : Lxd) (project prefix : String) (w : World L) where
  try_send-Runs :
      (o : Option (List String)) (r : Request)
      → removes_volume r ≡ false
      → Runs L project o w (try_send r)
  try_send-Runs o r h =
      Keeps-Runs L project o w (try_send r) λ k. Keeps-try_send L project o w k r h

  collect_volumes-Runs :
      (o : Option (List String)) → Runs L project o w (collect_volumes L project prefix o)
  collect_volumes-Runs none = Runs-pure L project none w _
  collect_volumes-Runs (some in_use) =
      Runs-bind L project prefix (some in_use) w (try_send list_storage_pools) _
        (try_send-Runs (some in_use) list_storage_pools refl)
        (collect_listed_pools-Runs L project prefix in_use w)

  collect-Runs : (o : Option (List String)) → Runs L project o w (collect L project prefix o)
  unfolding collect
  collect-Runs o =
      Runs-bind L project prefix o w (try_send list_images) _ (try_send-Runs o list_images refl)
        λ r.
          Runs-bind L project prefix o w (remove_listed L project prefix r) _
            (Keeps-Runs L project o w (remove_listed L project prefix r)
              λ k. remove_listed-Keeps L project o w k prefix r)
            λ n.
              Runs-bind L project prefix o w (collect_volumes L project prefix o) _
                (collect_volumes-Runs o) λ m. Runs-pure L project o w _

-- Whatever LXD answers: a collection makes a run, which removes only volumes that may go and that stand
-- in the last answer to a listing of their pool.
pub collect-Run :
    (L : Lxd) (project prefix : String) (o : Option (List String)) (w : World L)
    → (k : String × List StorageVolume) × Run L project o w k (collect L project prefix o w).1
collect-Run L project prefix o w = (collect-Runs L project prefix w o).at w ("", []) begins
