-- ===== src/Image/Rootfs/Walk.antt =====
-- crates/openshell-driver-lxd/src/image.rs, `resolve_in_rootfs`, beside the steps of path resolution below
-- the root that path_resolution(7) describes, without its check that the directories are there.
use openshell_driver_lxd.Common.{
  ℕ, zero, suc, ◌≤◌, ◌≡◌, refl, ap, arith, String, List, [], ◌∷◌, ◌++◌, some, Bool, true, false,
  if◌then◌else◌, ◌==◌, string_eq, All, All-append, Bool-cases, Option-cases, ◌⊎◌, sym, ◌∙◌, subst,
  inl, inr, ◌↔◌,
}
use openshell_driver_lxd.Common.Text.{split}
use mathlib.Core.Option.{none-ne-some}
use mathlib.Core.List.{append-nil}
use openshell_driver_lxd.Lxd.Types.{Result, ok, err}
use openshell_driver_lxd.Errors.{DriverError}
use openshell_driver_lxd.Image.Rootfs.{
  relative, split_last, resolve_in_rootfs, Component, root_dir, cur_dir, parent_dir, normal, piece,
  pieces, is_absolute, components, pop, resolve, max_symlink_hops, too_many, unreadable, below,
}

-- From the place `at`, following `hops` symlinks, the steps of path resolution along the components lead
-- to the place `there`. A name that is no symlink counts as a directory, whether or not there is one.
pub data Walk (is_symlink : List String → Bool) (read_link : List String → Result String String)
    : ℕ → List Component → List String → List String → Type 0 where
  arrived : {at there : List String} → at ≡ there → Walk is_symlink read_link zero [] at there
  enter :
      {hops : ℕ} {name : String} {cs : List Component} {at there : List String}
      → is_symlink (name ∷ at) ≡ false
      → Walk is_symlink read_link hops cs (name ∷ at) there
      → Walk is_symlink read_link hops (normal name ∷ cs) at there
  follow :
      {hops : ℕ} {name : String} {cs : List Component} {at there : List String} (target : String)
      → is_symlink (name ∷ at) ≡ true
      → read_link (name ∷ at) ≡ ok target
      → Walk is_symlink read_link hops (components target ++ cs) at there
      → Walk is_symlink read_link (suc hops) (normal name ∷ cs) at there
  up :
      {hops : ℕ} {cs : List Component} {at there : List String}
      → Walk is_symlink read_link hops cs (pop at) there
      → Walk is_symlink read_link hops (parent_dir ∷ cs) at there
  from_root :
      {hops : ℕ} {cs : List Component} {at there : List String}
      → Walk is_symlink read_link hops cs [] there
      → Walk is_symlink read_link hops (root_dir ∷ cs) at there
  stay :
      {hops : ℕ} {cs : List Component} {at there : List String}
      → Walk is_symlink read_link hops cs at there
      → Walk is_symlink read_link hops (cur_dir ∷ cs) at there

abbrev is_root : Component → Bool
is_root root_dir = true
is_root cur_dir = false
is_root parent_dir = false
is_root (normal name) = false

abbrev Unrooted : List Component → Type 0
Unrooted cs = All (λ c. is_root c ≡ false) cs

-- The root stands at the head only, and then the walk is at the root.
abbrev Rooted : List Component → List String → Type 0
Rooted [] at = Unit
Rooted (root_dir ∷ cs) at = (at ≡ []) × Unrooted cs
Rooted (cur_dir ∷ cs) at = Unrooted cs
Rooted (parent_dir ∷ cs) at = Unrooted cs
Rooted (normal name ∷ cs) at = Unrooted cs

Unrooted-Rooted : (cs : List Component) (at : List String) → Unrooted cs → Rooted cs at
Unrooted-Rooted [] at h = tt
Unrooted-Rooted (root_dir ∷ cs) at h = cc (h.0)
Unrooted-Rooted (cur_dir ∷ cs) at h = h.1
Unrooted-Rooted (parent_dir ∷ cs) at h = h.1
Unrooted-Rooted (normal name ∷ cs) at h = h.1

pieces-Unrooted : (ps : List String) → Unrooted (pieces ps)
unfolding pieces piece
pieces-Unrooted [] = tt
pieces-Unrooted (p ∷ ps) = ground (arith, pieces-Unrooted ps)

pub split_last-append :
    (cs before : List Component) (name : String)
    → split_last cs ≡ some (before, name)
    → cs ≡ before ++ normal name ∷ []
unfolding split_last
split_last-append [] before name e = cc
split_last-append (root_dir ∷ []) before name e = cc
split_last-append (cur_dir ∷ []) before name e = cc
split_last-append (parent_dir ∷ []) before name e = cc
split_last-append (normal n ∷ []) before name e = ground (arith, e)
split_last-append (c ∷ d ∷ cs) before name e = elim (Option-cases (split_last (d ∷ cs))) [
  | inl k ↦ absurd (none-ne-some _ (rw k at e))
  | inr ((front, last), k) ↦ ground (arith, rw k at e, split_last-append (d ∷ cs) front last k)
]

front-Unrooted : (cs ds : List Component) → Unrooted (cs ++ ds) → Unrooted cs
front-Unrooted [] ds h = tt
front-Unrooted (c ∷ cs) ds h = (h.0, front-Unrooted cs ds h.1)

front-Rooted : (cs ds : List Component) → Rooted (cs ++ ds) [] → Rooted cs []
front-Rooted [] ds h = tt
front-Rooted (root_dir ∷ cs) ds h = (refl, front-Unrooted cs ds h.1)
front-Rooted (cur_dir ∷ cs) ds h = front-Unrooted cs ds h
front-Rooted (parent_dir ∷ cs) ds h = front-Unrooted cs ds h
front-Rooted (normal name ∷ cs) ds h = front-Unrooted cs ds h

relative-Rooted :
    (ps : List String) (cs : List Component) (at : List String)
    → Unrooted cs
    → Rooted (relative ps ++ cs) at
relative-Rooted [] cs at h = Unrooted-Rooted cs at h
relative-Rooted (p ∷ ps) cs at h = elim (Bool-cases (p == ".")) [
  | inl e ↦ rw e (All-append _ (pieces ps) cs (pieces-Unrooted ps) h)
  | inr e ↦ rw e (
      Unrooted-Rooted (pieces (p ∷ ps) ++ cs) at
        (All-append _ (pieces (p ∷ ps)) cs (pieces-Unrooted (p ∷ ps)) h))
]

components-Rooted :
    (target : String) (cs : List Component) (at : List String)
    → Unrooted cs
    → Rooted (components target ++ cs) (if is_absolute target then [] else at)
unfolding components
components-Rooted target cs at h = elim (Bool-cases (is_absolute target)) [
  | inl e ↦ rw e (refl, All-append _ (pieces (split b'/' target)) cs (pieces-Unrooted _) h)
  | inr e ↦ rw e (relative-Rooted (split b'/' target) cs at h)
]

Result-cases {ℓ} :
    {E : Type 0} {A : Type ℓ} (r : Result E A) → ((e : E) × (r ≡ err e)) ⊎ ((a : A) × (r ≡ ok a))
Result-cases (ok a) = inr (a, refl)
Result-cases (err e) = inl (e, refl)

components-Rooted_alone : (path : String) → Rooted (components path) []
unfolding components
components-Rooted_alone path = elim (Bool-cases (is_absolute path)) [
  | inl e ↦ rw e (refl, pieces-Unrooted _)
  | inr e ↦
      rw e (subst (λ cs. Rooted cs []) (append-nil _) (relative-Rooted (split b'/' path) [] [] tt))
]

module _ (debug : String → String) (is_symlink : List String → Bool)
    (read_link : List String → Result String String) (rootfs guest_path : String) where
  -- A walk that begins at the root may begin anywhere.
  restart :
      {hops : ℕ} {cs : List Component} {at there : List String} (from : List String)
      → Walk is_symlink read_link hops (root_dir ∷ cs) at there
      → Walk is_symlink read_link hops (root_dir ∷ cs) from there
  restart from (from_root w) = from_root w

  restart_target :
      (target : String) (cs : List Component) (at there : List String) (hops : ℕ)
      → Walk is_symlink read_link hops
          (components target ++ cs)
          (if is_absolute target then [] else at)
          there
      → Walk is_symlink read_link hops (components target ++ cs) at there
  unfolding components
  restart_target target cs at there hops w = elim (Bool-cases (is_absolute target)) [
    | inl e ↦ rw e (restart at (rw e at w))
    | inr e ↦ rw e (rw e at w)
  ]

  send_target :
      (target : String) (cs : List Component) (at there : List String) (hops : ℕ)
      → Walk is_symlink read_link hops (components target ++ cs) at there
      → Walk is_symlink read_link hops
          (components target ++ cs)
          (if is_absolute target then [] else at)
          there
  unfolding components
  send_target target cs at there hops w = elim (Bool-cases (is_absolute target)) [
    | inl e ↦ rw e (restart [] (rw e at w))
    | inr e ↦ rw e (rw e at w)
  ]

  abbrev walks : ℕ → List Component → List String → Result DriverError (List String)
  walks = resolve debug is_symlink read_link rootfs guest_path

  below-ok :
      (file_name : String) (r : Result DriverError (List String)) (there : List String)
      → below debug is_symlink read_link rootfs guest_path file_name r ≡ ok (file_name ∷ there)
      → r ≡ ok there
  below-ok file_name (ok resolved) there h = cc
  below-ok file_name (err e) there h = cc

  enter_step :
      (left : ℕ) (name : String) (cs : List Component) (at : List String)
      → is_symlink (name ∷ at) ≡ false
      → walks left (normal name ∷ cs) at ≡ walks left cs (name ∷ at)
  unfolding resolve
  enter_step zero name cs at h = rw (h, resolve) refl
  enter_step (suc left) name cs at h = rw (h, resolve) refl

  stop_step :
      (name : String) (cs : List Component) (at : List String)
      → is_symlink (name ∷ at) ≡ true
      → (e : DriverError) × (walks zero (normal name ∷ cs) at ≡ err e)
  unfolding resolve
  stop_step name cs at h =
      (too_many debug is_symlink read_link rootfs guest_path, rw (h, resolve) refl)

  follow_step :
      (left : ℕ) (name : String) (cs : List Component) (at : List String) (target : String)
      → is_symlink (name ∷ at) ≡ true
      → read_link (name ∷ at) ≡ ok target
      → walks (suc left) (normal name ∷ cs) at
        ≡ walks left (components target ++ cs) (if is_absolute target then [] else at)
  unfolding resolve
  follow_step left name cs at target h k = rw (h, k, resolve) refl

  fail_step :
      (left : ℕ) (name : String) (cs : List Component) (at : List String) (e : String)
      → is_symlink (name ∷ at) ≡ true
      → read_link (name ∷ at) ≡ err e
      → (e' : DriverError) × (walks (suc left) (normal name ∷ cs) at ≡ err e')
  unfolding resolve
  fail_step left name cs at e h k = (
    unreadable debug is_symlink read_link rootfs guest_path (name ∷ at) e,
    rw (h, k, resolve) refl,
  )

  resolve-Walk :
      (left : ℕ) (cs : List Component) (at there : List String)
      → Rooted cs at
      → walks left cs at ≡ ok there
      → (hops : ℕ) × (hops ≤ left) × Walk is_symlink read_link hops cs at there
  unfolding resolve
  resolve-Walk left [] at there h e = (0, omega arith, arrived (cc))
  resolve-Walk left (root_dir ∷ cs) at there h e =
      let (hops, few, w) = resolve-Walk left cs at there (Unrooted-Rooted cs at h.1) e in
      (hops, few, from_root (subst (λ d. Walk is_symlink read_link hops cs d there) h.0 w))
  resolve-Walk left (cur_dir ∷ cs) at there h e =
      let (hops, few, w) = resolve-Walk left cs at there (Unrooted-Rooted cs at h) e in
      (hops, few, stay w)
  resolve-Walk left (parent_dir ∷ cs) at there h e =
      let (hops, few, w) = resolve-Walk left cs (pop at) there (Unrooted-Rooted cs (pop at) h) e in
      (hops, few, up w)
  resolve-Walk zero (normal name ∷ cs) at there h e = elim (Bool-cases (is_symlink (name ∷ at))) [
    | inl link ↦ cc ((stop_step name cs at link).1)
    | inr no_link ↦
        let (hops, few, w) =
          resolve-Walk zero cs (name ∷ at) there (Unrooted-Rooted cs (name ∷ at) h)
            (sym (enter_step zero name cs at no_link) ∙ e) in
        (hops, few, enter no_link w)
  ]
  resolve-Walk (suc left) (normal name ∷ cs) at there h e =
      elim (Bool-cases (is_symlink (name ∷ at))) [
        | inl link ↦ elim (Result-cases (read_link (name ∷ at))) [
          | inl (x, k) ↦ cc ((fail_step left name cs at x link k).1)
          | inr (target, k) ↦
              let (hops, few, w) =
                resolve-Walk left (components target ++ cs) (if is_absolute target then [] else at)
                  there (components-Rooted target cs at h)
                  (sym (follow_step left name cs at target link k) ∙ e) in
              (
                suc hops,
                omega (arith, few),
                follow target link k (restart_target target cs at there hops w),
              )
        ]
        | inr no_link ↦
            let (hops, few, w) =
              resolve-Walk (suc left) cs (name ∷ at) there (Unrooted-Rooted cs (name ∷ at) h)
                (sym (enter_step (suc left) name cs at no_link) ∙ e) in
            (hops, few, enter no_link w)
      ]

  Walk-resolve :
      (left hops : ℕ) (cs : List Component) (at there : List String)
      → Rooted cs at
      → hops ≤ left
      → Walk is_symlink read_link hops cs at there
      → walks left cs at ≡ ok there
  unfolding resolve
  Walk-resolve left zero [] at there h few (arrived e) = rw e refl
  Walk-resolve left (suc hops) [] at there h few w = elim w [ ]
  Walk-resolve left hops (root_dir ∷ cs) at there h few (from_root w) =
      rw h.0 (Walk-resolve left hops cs [] there (Unrooted-Rooted cs [] h.1) few w)
  Walk-resolve left hops (cur_dir ∷ cs) at there h few (stay w) =
      Walk-resolve left hops cs at there (Unrooted-Rooted cs at h) few w
  Walk-resolve left hops (parent_dir ∷ cs) at there h few (up w) =
      Walk-resolve left hops cs (pop at) there (Unrooted-Rooted cs (pop at) h) few w
  Walk-resolve left hops (normal name ∷ cs) at there h few (enter no_link w) =
      enter_step left name cs at no_link
      ∙ Walk-resolve left hops cs (name ∷ at) there (Unrooted-Rooted cs (name ∷ at) h) few w
  Walk-resolve zero (suc hops) (normal name ∷ cs) at there h few (follow target link k w) =
      absurd (omega arith)
  Walk-resolve (suc left) (suc hops) (normal name ∷ cs) at there h few (follow target link k w) =
      follow_step left name cs at target link k
      ∙ Walk-resolve left hops (components target ++ cs) (if is_absolute target then [] else at)
          there (components-Rooted target cs at h) (omega arith)
          (send_target target cs at there hops w)

parent-Rooted :
    (guest_path : String) (parent : List Component) (file_name : String)
    → split_last (components guest_path) ≡ some (parent, file_name)
    → Rooted parent []
parent-Rooted guest_path parent file_name e = front-Rooted parent (normal file_name ∷ []) (
    subst (λ cs. Rooted cs []) (split_last-append (components guest_path) parent file_name e)
      (components-Rooted_alone guest_path))

pub names_file :
    (debug : String → String) (is_symlink : List String → Bool)
    (read_link : List String → Result String String) (rootfs guest_path : String)
    (parent : List Component) (file_name : String)
    → split_last (components guest_path) ≡ some (parent, file_name)
    → resolve_in_rootfs debug is_symlink read_link rootfs guest_path
      ≡ below debug is_symlink read_link rootfs guest_path file_name
          (resolve debug is_symlink read_link rootfs guest_path max_symlink_hops parent [])
unfolding resolve_in_rootfs
names_file debug is_symlink read_link rootfs guest_path parent file_name e =
    rw (e, resolve_in_rootfs) refl

-- For a guest path that names a file in a directory: the path below the rootfs is that file below a
-- place exactly when the steps of path resolution, from the root and over no more than 40 symlinks,
-- lead to that place, where a name that is no symlink counts as a directory, whether or not there is one.
pub resolve_in_rootfs-Walk :
    (debug : String → String) (is_symlink : List String → Bool)
    (read_link : List String → Result String String) (rootfs guest_path : String)
    (parent : List Component) (file_name : String) (there : List String)
    → split_last (components guest_path) ≡ some (parent, file_name)
    → (resolve_in_rootfs debug is_symlink read_link rootfs guest_path ≡ ok (file_name ∷ there))
      ↔ ((hops : ℕ) × (hops ≤ max_symlink_hops) × Walk is_symlink read_link hops parent [] there)
resolve_in_rootfs-Walk debug is_symlink read_link rootfs guest_path parent file_name there e =
    let start = parent-Rooted guest_path parent file_name e in
    rw (names_file debug is_symlink read_link rootfs guest_path parent file_name e) (
      (λ found.
          resolve-Walk debug is_symlink read_link rootfs guest_path max_symlink_hops parent [] there
            start
            (below-ok debug is_symlink read_link rootfs guest_path file_name
              (resolve debug is_symlink read_link rootfs guest_path max_symlink_hops parent [])
              there found)),
      (λ (hops, few, w). ap (below debug is_symlink read_link rootfs guest_path file_name) (
          Walk-resolve debug is_symlink read_link rootfs guest_path max_symlink_hops hops parent []
            there start few w)),
    )
