-- ===== src/Lxd/Files/Order.antt =====
-- crates/lxd-client/src/instances.rs: the order of what `push_file_into_instance` asks for.
use openshell_driver_lxd.Common.{
  ◌≡◌, refl, ap, sym, ◌∙◌, eq_iff, Bool-cases, Option, none, some, string_eq, ℕ, arith, String,
  ◌<>◌, List, [], ◌∷◌, true, false, not, ◌⊎◌, inl, inr, keep,
}
use openshell_driver_lxd.Common.Text.{is_empty, split}
use openshell_driver_lxd.Lxd.Types.{LxdError, Result, ok, err}
use openshell_driver_lxd.Lxd.Files.{
  Post, directory, file, Guest, Pushed, Push, post_raw, is_directory, after_post, ensure_directory,
  go_on, ensure_all, create_parent_dirs_in_instance, push_file_into_instance,
}

-- The directories above a path of these components, the shallowest first.
abbrev pub above : String → List String → List String
above prefix [] = []
above prefix (c ∷ []) = []
above prefix (c ∷ d ∷ cs) = (prefix <> ("/" <> c)) ∷ above (prefix <> ("/" <> c)) (d ∷ cs)

abbrev pub parents : String → List String
parents guest_path = above "" (keep (λ c. not (is_empty c)) (split b'/' guest_path))

module _ (G : Guest) where
  -- After a post, and after the question of what a path is.
  abbrev pub posted : Post → Pushed G → Pushed G
  posted p w = record { state = (G.post p w.state).1; posts = p ∷ w.posts }

  abbrev pub inquired : String → Pushed G → Pushed G
  inquired path w = record w { state = (G.get_type path w.state).1 }

  -- From `w`, a push asks for these directories in turn, with the outcome `x`: each is made, or it is
  -- refused but is there already; or the first one that is refused and is no directory ends it.
  pub data Makes : List String → Pushed G → Result LxdError (Unit {0}) × Pushed G → Type 0 where
    all_there :
        {w : Pushed G} {x : Result LxdError (Unit {0}) × Pushed G} → x ≡ (ok tt, w) → Makes [] w x
    made :
        {dir : String} {dirs : List String} {w : Pushed G}
        {x : Result LxdError (Unit {0}) × Pushed G}
        → (G.post (directory dir) w.state).0 ≡ ok tt
        → Makes dirs (posted (directory dir) w) x
        → Makes (dir ∷ dirs) w x
    found :
        {dir : String} {dirs : List String} {w : Pushed G}
        {x : Result LxdError (Unit {0}) × Pushed G} (e : LxdError)
        → (G.post (directory dir) w.state).0 ≡ err e
        → (G.get_type dir (posted (directory dir) w).state).0 ≡ ok (some "directory")
        → Makes dirs (inquired dir (posted (directory dir) w)) x
        → Makes (dir ∷ dirs) w x
    refused :
        {dir : String} {dirs : List String} {w : Pushed G}
        {x : Result LxdError (Unit {0}) × Pushed G} (e : LxdError)
        → (G.post (directory dir) w.state).0 ≡ err e
        → ¬ ((G.get_type dir (posted (directory dir) w).state).0 ≡ ok (some "directory"))
        → x ≡ (err e, inquired dir (posted (directory dir) w))
        → Makes (dir ∷ dirs) w x

  is_directory-true :
      (r : Result LxdError (Option String)) → is_directory G r ≡ true → r ≡ ok (some "directory")
  is_directory-true (ok (some type_)) h = ap (λ t. ok (some t)) ((eq_iff type_ "directory").0 h)
  is_directory-true (ok none) h = absurd (ground (arith, h))
  is_directory-true (err e) h = absurd (ground (arith, h))

  is_directory-false :
      (r : Result LxdError (Option String))
      → is_directory G r ≡ false
      → ¬ (r ≡ ok (some "directory"))
  is_directory-false r h k = absurd (ground (arith, sym h ∙ ap (is_directory G) k))

  -- One directory, and then the rest.
  ensure_directory-Makes :
      (dir : String) (dirs : List String) (rest : Push G) (w : Pushed G)
      → ((v : Pushed G) → Makes dirs v (rest v))
      → (r : Result LxdError (Unit {0})) → (G.post (directory dir) w.state).0 ≡ r
      → let (s, v) = after_post G dir r (posted (directory dir) w) in
        Makes (dir ∷ dirs) w (go_on G s rest v)
  ensure_directory-Makes dir dirs rest w h (ok _) e = made e (h (posted (directory dir) w))
  ensure_directory-Makes dir dirs rest w h (err x) e =
      elim (Bool-cases (is_directory G (G.get_type dir (posted (directory dir) w).state).0)) [
        | inl f ↦ rw f (found x e (is_directory-true _ f) (h _))
        | inr f ↦ rw f (refused x e (is_directory-false _ f) refl)
      ]

  ensure_all-Makes :
      (prefix : String) (cs : List String) (w : Pushed G)
      → Makes (above prefix cs) w (ensure_all G prefix cs w)
  unfolding ensure_all ensure_directory post_raw
  ensure_all-Makes prefix [] w = all_there refl
  ensure_all-Makes prefix (c ∷ []) w = all_there refl
  ensure_all-Makes prefix (c ∷ d ∷ cs) w =
      let dir = prefix <> ("/" <> c) in
      ensure_directory-Makes dir (above dir (d ∷ cs)) (ensure_all G dir (d ∷ cs)) w
        (ensure_all-Makes dir (d ∷ cs)) (G.post (directory dir) w.state).0 refl

  -- A push from `w`, with the outcome `x`.
  abbrev pub Pushes : String → List ℕ → Pushed G → Result LxdError (Unit {0}) × Pushed G → Type 0
  Pushes guest_path content w x =
      (v : Pushed G) × ((Makes (parents guest_path) w (ok tt, v)
          × (x
              ≡ ((G.post (file guest_path content) v.state).0, posted (file guest_path content) v)))
        ⊎ ((e : LxdError) × Makes (parents guest_path) w (err e, v) × (x ≡ (err e, v))))

  pushed :
      (guest_path : String) (content : List ℕ) (w : Pushed G) (r : Result LxdError (Unit {0}))
      (v : Pushed G)
      → Makes (parents guest_path) w (r, v)
      → Pushes guest_path content w (go_on G r (post_raw G (file guest_path content)) v)
  unfolding post_raw
  pushed guest_path content w (ok _) v h = (v, inl (h, refl))
  pushed guest_path content w (err e) v h = (v, inr (e, h, refl))

-- Whatever LXD answers: a push asks for the directories above the path, the shallowest first. It goes on
-- past one that is made, or that is refused where LXD then says that it is a directory. At the first
-- one that is refused otherwise it stops with that error, and asks for nothing more; past all of them
-- it asks for the file, and has the answer to that.
pub push_file_into_instance-Pushes :
    (G : Guest) (guest_path : String) (content : List ℕ) (w : Pushed G)
    → Pushes G guest_path content w (push_file_into_instance G guest_path content w)
unfolding push_file_into_instance create_parent_dirs_in_instance
push_file_into_instance-Pushes G guest_path content w =
    let (r, v) = create_parent_dirs_in_instance G guest_path w in
    pushed G guest_path content w r v
      (ensure_all-Makes G "" (keep (λ c. not (is_empty c)) (split b'/' guest_path)) w)
