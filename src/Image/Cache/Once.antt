-- ===== src/Image/Cache/Once.antt =====
-- crates/openshell-driver-lxd/src/image.rs, `ImageCache::resolve_alias`: what holds however the tasks
-- take turns.
use openshell_driver_lxd.Common.{
  ℕ, zero, suc, ◌+◌, ◌≤◌, ◌<◌, ◌≡◌, refl, arith, String, List, [], ◌∷◌, Bool, true, false, ◌==◌,
  nat_eq, string_eq, if◌then◌else◌, contains, eq_iff, eq_refl, Bool-cases, ◌⊎◌, inl, inr, ◌≢◌, sym,
  ◌∙◌, subst,
}
use openshell_driver_lxd.Lxd.Types.{Result, ok, err}
use openshell_driver_lxd.Errors.{DriverError}
use openshell_driver_lxd.Image.Cache.{
  Phase, begin, resolving, waiting, checking, importing, finished, checked_reference, System,
  any_below, goes, alias_of, enter, on_digest, on_exists, on_import, holds, is_held, Step, starts,
  resolves, locks, checks, check_fails, imports, import_fails, others_add, Reach, here, next,
  initial,
}

abbrev pub times : String → List String → ℕ
times alias [] = 0
times alias (a ∷ rest) = (if a == alias then 1 else 0) + times alias rest

times-zero :
    (alias : String) (names : List String) → contains names alias ≡ false → times alias names ≡ 0
times-zero alias [] h = refl
times-zero alias (a ∷ rest) h = ground (arith, times-zero alias rest)

any_below-false : (n i : ℕ) (p : ℕ → Bool) → any_below n p ≡ false → i < n → p i ≡ false
unfolding any_below
any_below-false zero i p h lt = absurd (omega arith)
any_below-false (suc n) i p h lt = ground (arith, any_below-false n i p)

module _ (debug : String → String) (is_match : String → Bool) (prefix : String) where
  abbrev held_by : String → Phase → Bool
  held_by = holds debug is_match prefix

  abbrev named : String → String
  named = alias_of debug is_match prefix

  pub record IsSound (s : System) : Type 0 where
    -- No two tasks hold the lock of one alias.
    pub exclusive :
        (alias : String) (i j : ℕ)
        → i < s.count
        → j < s.count
        → held_by alias (s.phase i) ≡ true
        → held_by alias (s.phase j) ≡ true
        → i ≡ j
    -- What is being imported was not imported before.
    pub missing :
        (i : ℕ) (reference digest : String)
        → i < s.count
        → s.phase i ≡ importing reference digest
        → contains s.imports (named digest) ≡ false
    -- LXD has what was imported, once, and what a call returned.
    pub kept : (alias : String) → contains s.imports alias ≡ true → contains s.images alias ≡ true
    pub once : (alias : String) → times alias s.imports ≤ 1
    pub answered :
        (i : ℕ) (alias : String) → s.phase i ≡ finished (ok alias) → contains s.images alias ≡ true

  -- The next phase of task `i` takes no lock that another task holds, imports nothing a second time, and
  -- returns only what LXD has.
  record IsNext (s : System) (i : ℕ) (p : Phase) : Type 0 where
    locked :
        (alias : String)
        → held_by alias p ≡ true
        → (held_by alias (s.phase i) ≡ true) ⊎ (is_held debug is_match prefix s alias ≡ false)
    fresh :
        (reference digest : String)
        → p ≡ importing reference digest
        → contains s.imports (named digest) ≡ false
    had : (alias : String) → p ≡ finished (ok alias) → contains s.images alias ≡ true

  goes-phase :
      (s : System) (i j : ℕ) (p : Phase)
      → ((i ≡ j) × ((goes s i p).phase j ≡ p)) ⊎ ((i ≢ j) × ((goes s i p).phase j ≡ s.phase j))
  unfolding goes
  goes-phase s i j p = elim (Bool-cases (i == j)) [
    | inl e ↦ inl (ground (arith, e), rw e refl)
    | inr e ↦ inr (ground (arith, e), rw e refl)
  ]

  module _ (s : System) (i : ℕ) (p : Phase) (lt : i < s.count) (sound : IsSound s)
      (ahead : IsNext s i p) where
    -- Another task that holds a lock which task `i` has in its next phase.
    clash :
        (alias : String) (k : ℕ)
        → k < s.count
        → i ≢ k
        → held_by alias p ≡ true
        → held_by alias (s.phase k) ≡ true
        → ⊥
    unfolding is_held
    clash alias k below apart mine theirs = elim (ahead.locked alias mine) [
      | inl before ↦ apart (sound.exclusive alias i k lt below before theirs)
      | inr free ↦
          ground
            (arith, any_below-false s.count k (λ j. held_by alias (s.phase j)) free below, theirs)
    ]

    goes-exclusive :
        (alias : String) (j k : ℕ)
        → j < s.count
        → k < s.count
        → held_by alias ((goes s i p).phase j) ≡ true
        → held_by alias ((goes s i p).phase k) ≡ true
        → j ≡ k
    goes-exclusive alias j k hj hk mj mk = elim (goes-phase s i j p) [
      | inl (ij, ej) ↦ elim (goes-phase s i k p) [
        | inl (ik, ek) ↦ sym ij ∙ ik
        | inr (apart, ek) ↦ absurd (clash alias k hk apart (rw ej at mj) (rw ek at mk))
      ]
      | inr (apart, ej) ↦ elim (goes-phase s i k p) [
        | inl (ik, ek) ↦ absurd (clash alias j hj apart (rw ek at mk) (rw ej at mj))
        | inr (apart', ek) ↦ sound.exclusive alias j k hj hk (rw ej at mj) (rw ek at mk)
      ]
    ]

    goes-missing :
        (j : ℕ) (reference digest : String)
        → j < s.count
        → (goes s i p).phase j ≡ importing reference digest
        → contains s.imports (named digest) ≡ false
    goes-missing j reference digest hj e = elim (goes-phase s i j p) [
      | inl (ij, ej) ↦ ahead.fresh reference digest (sym ej ∙ e)
      | inr (apart, ej) ↦ sound.missing j reference digest hj (sym ej ∙ e)
    ]

    goes-answered :
        (j : ℕ) (alias : String)
        → (goes s i p).phase j ≡ finished (ok alias)
        → contains s.images alias ≡ true
    goes-answered j alias e = elim (goes-phase s i j p) [
      | inl (ij, ej) ↦ ahead.had alias (sym ej ∙ e)
      | inr (apart, ej) ↦ sound.answered j alias (sym ej ∙ e)
    ]

    goes-IsSound : IsSound (goes s i p)
    unfolding goes
    goes-IsSound = record {
      exclusive = goes-exclusive;
      missing = goes-missing;
      kept = sound.kept;
      once = sound.once;
      answered = goes-answered;
    }

  -- A phase in which no lock is held, nothing is imported and nothing was returned.
  abbrev is_idle : Phase → Bool
  is_idle (begin reference) = true
  is_idle (resolving reference) = true
  is_idle (waiting reference digest) = true
  is_idle (checking reference digest) = false
  is_idle (importing reference digest) = false
  is_idle (finished (ok alias)) = false
  is_idle (finished (err e)) = true

  idle-IsNext : (s : System) (i : ℕ) (p : Phase) → is_idle p ≡ true → IsNext s i p
  unfolding holds
  idle-IsNext s i (begin r) h = record { locked = λ a e. cc; fresh = λ r d e. cc; had = λ a e. cc }
  idle-IsNext s i (resolving r) h = record {
    locked = λ a e. cc;
    fresh = λ r d e. cc;
    had = λ a e. cc;
  }
  idle-IsNext s i (waiting r d) h = record {
    locked = λ a e. cc;
    fresh = λ r d e. cc;
    had = λ a e. cc;
  }
  idle-IsNext s i (checking r d) h = cc
  idle-IsNext s i (importing r d) h = cc
  idle-IsNext s i (finished (ok a)) h = cc
  idle-IsNext s i (finished (err x)) h = record {
    locked = λ a e. cc;
    fresh = λ r d e. cc;
    had = λ a e. cc;
  }

  checked-idle :
      (reference : String) (r : Result DriverError (Unit {0}))
      → is_idle (checked_reference debug is_match prefix reference r) ≡ true
  checked-idle reference (ok _) = refl
  checked-idle reference (err e) = refl

  on_digest-idle :
      (reference : String) (answer : Result DriverError String)
      → is_idle (on_digest debug is_match prefix reference answer) ≡ true
  unfolding on_digest
  on_digest-idle reference (ok digest) = refl
  on_digest-idle reference (err e) = refl

  checking-IsNext :
      (s : System) (i : ℕ) (reference digest : String)
      → is_held debug is_match prefix s (named digest) ≡ false
      → IsNext s i (checking reference digest)
  unfolding holds
  checking-IsNext s i reference digest free = record {
    locked =
        λ a e. inr (subst (λ x. is_held debug is_match prefix s x ≡ false) ((eq_iff _ a).0 e) free);
    fresh = λ r d e. cc;
    had = λ a e. cc;
  }

  not_imported :
      (s : System) (alias : String)
      → IsSound s
      → contains s.images alias ≡ false
      → contains s.imports alias ≡ false
  not_imported s alias sound h = elim (Bool-cases (contains s.imports alias)) [
    | inl e ↦ cc (sound.kept alias e, h)
    | inr e ↦ e
  ]

  -- After the check, by its answer.
  on_exists-IsNext :
      (s : System) (i : ℕ) (reference digest : String) (b : Bool)
      → IsSound s
      → s.phase i ≡ checking reference digest
      → contains s.images (named digest) ≡ b
      → IsNext s i (on_exists debug is_match prefix reference digest (ok b))
  unfolding on_exists holds
  on_exists-IsNext s i reference digest true sound now found = record {
    locked = λ a e. cc;
    fresh = λ r d e. cc;
    had = λ a e.
        let same : named digest ≡ a = cc (e) in subst (λ x. contains s.images x ≡ true) same found;
  }
  on_exists-IsNext s i reference digest false sound now found = record {
    locked = λ a e. inl (rw now e);
    fresh = λ r d e.
        let same : digest ≡ d = cc (e) in
        subst (λ x. contains s.imports (named x) ≡ false) same
          (not_imported s (named digest) sound found);
    had = λ a e. cc;
  }

  abbrev with_import : System → String → System
  with_import s alias = record s { images = alias ∷ s.images; imports = alias ∷ s.imports }

  module _ (s : System) (i : ℕ) (reference digest : String) (lt : i < s.count)
      (now : s.phase i ≡ importing reference digest) (sound : IsSound s) where
    abbrev after_import : System
    after_import = goes (with_import s (named digest)) i (finished (ok (named digest)))

    mine : held_by (named digest) (s.phase i) ≡ true
    unfolding holds
    mine = rw now (eq_refl (named digest))

    holds_nothing : (alias other : String) → held_by alias (finished (ok other)) ≡ true → ⊥
    unfolding holds
    holds_nothing alias other h = absurd (cc)

    another_alias :
        (j : ℕ) (r d : String)
        → j < s.count
        → i ≢ j
        → s.phase j ≡ importing r d
        → (named digest == named d) ≡ false
    unfolding holds
    another_alias j r d hj apart theirs = elim (Bool-cases (named digest == named d)) [
      | inl e ↦ absurd (
          apart (
            sound.exclusive (named digest) i j lt hj mine
              (rw theirs (rw ((eq_iff (named digest) (named d)).0 e) (eq_refl (named d))))))
      | inr e ↦ e
    ]

    import-exclusive :
        (alias : String) (j k : ℕ)
        → j < s.count
        → k < s.count
        → held_by alias (after_import.phase j) ≡ true
        → held_by alias (after_import.phase k) ≡ true
        → j ≡ k
    import-exclusive alias j k hj hk mj mk =
        elim (goes-phase (with_import s (named digest)) i j (finished (ok (named digest)))) [
          | inl (ij, ej) ↦ absurd (holds_nothing alias (named digest) (rw ej at mj))
          | inr (apart, ej) ↦
              elim (goes-phase (with_import s (named digest)) i k (finished (ok (named digest)))) [
                | inl (ik, ek) ↦ absurd (holds_nothing alias (named digest) (rw ek at mk))
                | inr (apart', ek) ↦ sound.exclusive alias j k hj hk (rw ej at mj) (rw ek at mk)
              ]
        ]

    import-missing :
        (j : ℕ) (r d : String)
        → j < s.count
        → after_import.phase j ≡ importing r d
        → contains (named digest ∷ s.imports) (named d) ≡ false
    import-missing j r d hj e =
        elim (goes-phase (with_import s (named digest)) i j (finished (ok (named digest)))) [
          | inl (ij, ej) ↦ cc (ej, e)
          | inr (apart, ej) ↦
              let theirs : s.phase j ≡ importing r d = sym ej ∙ e in
              ground (arith, another_alias j r d hj apart theirs, sound.missing j r d hj theirs)
        ]

    import-kept :
        (alias : String)
        → contains (named digest ∷ s.imports) alias ≡ true
        → contains (named digest ∷ s.images) alias ≡ true
    import-kept alias h = ground (arith, sound.kept alias, h)

    import-once : (alias : String) → times alias (named digest ∷ s.imports) ≤ 1
    import-once alias = elim (Bool-cases (named digest == alias)) [
      | inl e ↦
          let new : contains s.imports alias ≡ false =
            subst (λ x. contains s.imports x ≡ false) ((eq_iff (named digest) alias).0 e)
              (sound.missing i reference digest lt now) in
          rw e (omega (arith, times-zero alias s.imports new))
      | inr e ↦ rw e (omega (arith, sound.once alias))
    ]

    import-answered :
        (j : ℕ) (alias : String)
        → after_import.phase j ≡ finished (ok alias)
        → contains (named digest ∷ s.images) alias ≡ true
    import-answered j alias e =
        elim (goes-phase (with_import s (named digest)) i j (finished (ok (named digest)))) [
          | inl (ij, ej) ↦
              let same : named digest ≡ alias = cc (ej, e) in
              ground (arith, (eq_iff (named digest) alias).1 same)
          | inr (apart, ej) ↦ ground (arith, sound.answered j alias (sym ej ∙ e))
        ]

    import-IsSound : IsSound after_import
    unfolding goes
    import-IsSound = record {
      exclusive = import-exclusive;
      missing = import-missing;
      kept = import-kept;
      once = import-once;
      answered = import-answered;
    }

  extend-IsSound :
      (s : System) (alias : String) → IsSound s → IsSound (record s { images = alias ∷ s.images })
  extend-IsSound s alias sound = record {
    exclusive = sound.exclusive;
    missing = sound.missing;
    kept = λ a h. ground (arith, sound.kept a h);
    once = sound.once;
    answered = λ i a h. ground (arith, sound.answered i a h);
  }

  Step-IsSound : {s t : System} → Step debug is_match prefix s t → IsSound s → IsSound t
  unfolding enter on_import on_exists
  Step-IsSound {s} (starts {reference} i lt now) sound =
      goes-IsSound s i (enter debug is_match prefix reference) lt sound
        (idle-IsNext s i _ (checked-idle reference _))
  Step-IsSound {s} (resolves {reference} i answer lt now) sound =
      goes-IsSound s i (on_digest debug is_match prefix reference answer) lt sound
        (idle-IsNext s i _ (on_digest-idle reference answer))
  Step-IsSound {s} (locks {reference} {digest} i lt now free) sound =
      goes-IsSound s i (checking reference digest) lt sound
        (checking-IsNext s i reference digest free)
  Step-IsSound {s} (checks {reference} {digest} i lt now) sound =
      goes-IsSound s i _ lt sound
        (on_exists-IsNext s i reference digest (contains s.images (named digest)) sound now refl)
  Step-IsSound {s} (check_fails i e lt now) sound =
      goes-IsSound s i (finished (err e)) lt sound (idle-IsNext s i (finished (err e)) refl)
  Step-IsSound {s} (imports {reference} {digest} i lt now) sound =
      import-IsSound s i reference digest lt now sound
  Step-IsSound {s} (import_fails i e lt now) sound =
      goes-IsSound s i (finished (err e)) lt sound (idle-IsNext s i (finished (err e)) refl)
  Step-IsSound {s} (others_add alias) sound = extend-IsSound s alias sound

  initial-IsSound :
      (count : ℕ) (references : ℕ → String) (images : List String)
      → IsSound (initial count references images)
  unfolding initial holds
  initial-IsSound count references images = record {
    exclusive = λ a i j hi hj mi mj. cc;
    missing = λ i r d hi e. cc;
    kept = λ a h. cc;
    once = λ a. omega arith;
    answered = λ i a e. cc;
  }

  Reach-IsSound : {s t : System} → IsSound s → Reach debug is_match prefix s t → IsSound t
  Reach-IsSound sound here = sound
  Reach-IsSound sound (next r st) = Step-IsSound st (Reach-IsSound sound r)

-- However any number of calls take turns, and whatever other clients add meanwhile: an alias is
-- imported successfully once at most.
pub resolve_alias-imports_once :
    (debug : String → String) (is_match : String → Bool) (prefix : String) (count : ℕ)
    (references : ℕ → String) (images : List String) (s : System) (alias : String)
    → Reach debug is_match prefix (initial count references images) s
    → times alias s.imports ≤ 1
resolve_alias-imports_once debug is_match prefix count references images s alias r =
    (Reach-IsSound debug is_match prefix
        (initial-IsSound debug is_match prefix count references images) r).once
      alias

-- However any number of calls take turns: LXD has every alias that a call has returned.
pub resolve_alias-answers :
    (debug : String → String) (is_match : String → Bool) (prefix : String) (count : ℕ)
    (references : ℕ → String) (images : List String) (s : System) (i : ℕ) (alias : String)
    → Reach debug is_match prefix (initial count references images) s
    → s.phase i ≡ finished (ok alias)
    → contains s.images alias ≡ true
resolve_alias-answers debug is_match prefix count references images s i alias r done =
    (Reach-IsSound debug is_match prefix
        (initial-IsSound debug is_match prefix count references images) r).answered
      i alias done
