-- ===== src/Image/Cache/Finish.antt =====
-- crates/openshell-driver-lxd/src/image.rs, `ImageCache::resolve_alias`: no lock is waited for in vain.
use openshell_driver_lxd.Common.{
  ℕ, zero, suc, ◌+◌, ◌<◌, ◌≡◌, refl, arith, String, Bool, true, ◌==◌, nat_eq, string_eq, Bool-cases,
  inl, inr,
}
use openshell_driver_lxd.Lxd.Types.{ok}
use openshell_driver_lxd.Image.Cache.{
  Phase, begin, resolving, waiting, checking, importing, finished, System, any_below, alias_of,
  holds, is_held, Step, starts, resolves, locks, checks, check_fails, imports, import_fails,
  others_add,
}

-- How many answers a call waits for yet.
abbrev pub work_of : Phase → ℕ
work_of (begin reference) = 5
work_of (resolving reference) = 4
work_of (waiting reference digest) = 3
work_of (checking reference digest) = 2
work_of (importing reference digest) = 1
work_of (finished answer) = 0

unfoldable pub work_below : ℕ → (ℕ → Phase) → ℕ
work_below zero phase = 0
work_below (suc n) phase = work_of (phase n) + work_below n phase

abbrev pub work : System → ℕ
work s = work_below s.count s.phase

any_below-true : (n : ℕ) (p : ℕ → Bool) → any_below n p ≡ true → (i : ℕ) × (i < n) × (p i ≡ true)
unfolding any_below
any_below-true zero p h = cc
any_below-true (suc n) p h = elim (Bool-cases (p n)) [
  | inl e ↦ (n, omega arith, e)
  | inr e ↦
      let (i, lt, found) = any_below-true n p (ground (arith, e, h)) in
      (i, omega (arith, lt), found)
]

busy_below :
    (n : ℕ) (phase : ℕ → Phase)
    → 0 < work_below n phase
    → (i : ℕ) × (i < n) × (0 < work_of (phase i))
unfolding work_below
busy_below zero phase h = absurd (omega arith)
busy_below (suc n) phase h = elim (Bool-cases (work_of (phase n) == 0)) [
  | inl e ↦
      let (i, lt, busy) = busy_below n phase (ground (arith, e, h)) in (i, omega (arith, lt), busy)
  | inr e ↦ (n, omega arith, ground (arith, e))
]

module _ (debug : String → String) (is_match : String → Bool) (prefix : String) where
  -- Steps of the tasks, where `others_add` is one of other clients.
  pub own : {s t : System} → Step debug is_match prefix s t → ℕ
  own (starts i lt now) = 1
  own (resolves i answer lt now) = 1
  own (locks i lt now free) = 1
  own (checks i lt now) = 1
  own (check_fails i e lt now) = 1
  own (imports i lt now) = 1
  own (import_fails i e lt now) = 1
  own (others_add alias) = 0

  abbrev GoesOn : System → Type 0
  GoesOn s = (t : System) × (st : Step debug is_match prefix s t) × (own st ≡ 1)

  -- A task with the lock goes on.
  holder-GoesOn :
      (s : System) (i : ℕ) (alias : String) (p : Phase)
      → i < s.count
      → s.phase i ≡ p
      → holds debug is_match prefix alias p ≡ true
      → GoesOn s
  unfolding holds own
  holder-GoesOn s i alias (begin r) lt now h = cc
  holder-GoesOn s i alias (resolving r) lt now h = cc
  holder-GoesOn s i alias (waiting r d) lt now h = cc
  holder-GoesOn s i alias (finished x) lt now h = cc
  holder-GoesOn s i alias (checking r d) lt now h = (_, checks i lt now, refl)
  holder-GoesOn s i alias (importing r d) lt now h = (_, imports i lt now, refl)

  -- A task that wants a lock gets it, or its holder goes on.
  waiter-GoesOn :
      (s : System) (i : ℕ) (r d : String) → i < s.count → s.phase i ≡ waiting r d → GoesOn s
  unfolding own is_held
  waiter-GoesOn s i r d lt now =
      elim (Bool-cases (is_held debug is_match prefix s (alias_of debug is_match prefix d))) [
        | inr free ↦ (_, locks i lt now free, refl)
        | inl held ↦
            let (j, below, mine) = any_below-true s.count _ held in
            holder-GoesOn s j (alias_of debug is_match prefix d) (s.phase j) below refl mine
      ]

  busy-GoesOn :
      (s : System) (i : ℕ) (p : Phase) → i < s.count → s.phase i ≡ p → 0 < work_of p → GoesOn s
  unfolding own
  busy-GoesOn s i (begin r) lt now h = (_, starts i lt now, refl)
  busy-GoesOn s i (resolving r) lt now h = (_, resolves i (ok "") lt now, refl)
  busy-GoesOn s i (waiting r d) lt now h = waiter-GoesOn s i r d lt now
  busy-GoesOn s i (checking r d) lt now h = (_, checks i lt now, refl)
  busy-GoesOn s i (importing r d) lt now h = (_, imports i lt now, refl)
  busy-GoesOn s i (finished x) lt now h = absurd (omega arith)

  -- While a call is not at its end, some task can take a step: no lock is waited for in vain.
  pub resolve_alias-goes_on :
      (s : System)
      → 0 < work s
      → (t : System) × (st : Step debug is_match prefix s t) × (own st ≡ 1)
  resolve_alias-goes_on s h =
      let (i, lt, busy) = busy_below s.count s.phase h in busy-GoesOn s i (s.phase i) lt refl busy
