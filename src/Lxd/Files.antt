-- ===== src/Lxd/Files.antt =====
-- crates/lxd-client/src/instances.rs: `push_file_into_instance`, with
-- `create_parent_dirs_in_instance` and `path_is_dir_in_instance`, over the files API of one instance.
pub mod Order
use openshell_driver_lxd.Common.{
  ℕ, String, ◌<>◌, List, [], ◌∷◌, Option, none, some, Bool, true, false, not, ◌==◌, string_eq,
  if◌then◌else◌, keep,
}
use openshell_driver_lxd.Common.Text.{is_empty, split}
use openshell_driver_lxd.Lxd.Types.{LxdError, Result, ok, err}

-- A `POST` to the files API.
pub data Post : Type 0 where
  directory : (path : String) → Post
  file : (path : String) (content : List ℕ) → Post

-- The instance's files behind the API: the answer to a post, and the `X-LXD-type` header, trimmed, if any, that
-- answers a `GET`.
pub record Guest : Type 1 where
  pub State : Type 0
  pub post : Post → State → Result LxdError (Unit {0}) × State
  pub get_type : String → State → Result LxdError (Option String) × State

-- The posts made so far, the last one first.
pub record Pushed (G : Guest) : Type 0 where
  pub state : G.State
  pub posts : List Post

-- `result?`, then the rest.
module _ (G : Guest) where
  abbrev pub Push : Type 0
  Push = Pushed G → Result LxdError (Unit {0}) × Pushed G

  unfoldable pub post_raw : Post → Push
  post_raw p w =
      let (answer, state) = G.post p w.state in
      (answer, record { state = state; posts = p ∷ w.posts })

  abbrev pub is_directory : Result LxdError (Option String) → Bool
  is_directory (ok (some type_)) = type_ == "directory"
  is_directory _ = false

  -- After a post of a directory: an error is none if the path is a directory now.
  abbrev pub after_post : String → Result LxdError (Unit {0}) → Push
  after_post prefix (ok _) w = (ok tt, w)
  after_post prefix (err e) w =
      let (answer, state) = G.get_type prefix w.state in
      let v = record w { state = state } in if is_directory answer then (ok tt, v) else (err e, v)

  unfoldable pub ensure_directory : String → Push
  ensure_directory prefix w = let (r, v) = post_raw (directory prefix) w in after_post prefix r v

  abbrev pub go_on : Result LxdError (Unit {0}) → Push → Push
  go_on (ok _) rest w = rest w
  go_on (err e) rest w = (err e, w)

  -- The loop over the components but the last one, with the prefix so far.
  unfoldable pub ensure_all : String → List String → Push
  ensure_all prefix [] w = (ok tt, w)
  ensure_all prefix (c ∷ []) w = (ok tt, w)
  ensure_all prefix (c ∷ d ∷ cs) w =
      let (r, v) = ensure_directory (prefix <> ("/" <> c)) w in
      go_on r (ensure_all (prefix <> ("/" <> c)) (d ∷ cs)) v

  unfoldable pub create_parent_dirs_in_instance : String → Push
  create_parent_dirs_in_instance guest_path =
      ensure_all "" (keep (λ c. not (is_empty c)) (split b'/' guest_path))

  unfoldable pub push_file_into_instance : String → List ℕ → Push
  push_file_into_instance guest_path content w =
      let (r, v) = create_parent_dirs_in_instance guest_path w in
      go_on r (post_raw (file guest_path content)) v
