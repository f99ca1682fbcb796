-- ===== src/Image/Cache.antt =====
-- crates/openshell-driver-lxd/src/image.rs, `ImageCache::resolve_alias`, run by any number of tasks at
-- once. A task is in a phase, and goes to the next one when what it awaits is answered. The table of
-- locks has one mutex for each alias and never loses one, so a lock is told by its alias. `import`
-- and `resolve_digest` are the importer's; other clients of LXD may add aliases at any time.
pub mod Once
pub mod Finish
use openshell_driver_lxd.Common.{
  ℕ, zero, suc, ◌+◌, ◌<◌, ◌≡◌, String, List, [], ◌∷◌, Bool, true, false, ◌||◌, ◌==◌, nat_eq,
  string_eq, if◌then◌else◌, contains,
}
use openshell_driver_lxd.Lxd.Types.{Result, ok, err}
use openshell_driver_lxd.Errors.{DriverError}
use openshell_driver_lxd.Driver.Checks.{validate_reference}
use openshell_driver_lxd.Gc.{cache_alias_with_prefix}

-- What a call of `resolve_alias` waits for: its start, the digest, the lock, whether the alias exists,
-- the import. The last three are for the digest of a reference.
pub data Phase : Type 0 where
  begin : (reference : String) → Phase
  resolving : (reference : String) → Phase
  waiting : (reference digest : String) → Phase
  checking : (reference digest : String) → Phase
  importing : (reference digest : String) → Phase
  finished : Result DriverError String → Phase

-- The tasks, the aliases that LXD has, and those of the imports that succeeded.
pub record System : Type 0 where
  pub count : ℕ
  pub phase : ℕ → Phase
  pub images : List String
  pub imports : List String

unfoldable pub any_below : ℕ → (ℕ → Bool) → Bool
any_below zero p = false
any_below (suc n) p = p n || any_below n p

unfoldable pub goes : System → ℕ → Phase → System
goes s i p = record s { phase = λ j. if i == j then p else s.phase j }

module _ (debug : String → String) (is_match : String → Bool) (prefix : String) where
  unfoldable pub alias_of : String → String
  alias_of digest = cache_alias_with_prefix prefix digest

  abbrev pub checked_reference : String → Result DriverError (Unit {0}) → Phase
  checked_reference reference (ok _) = resolving reference
  checked_reference reference (err e) = finished (err e)

  unfoldable pub enter : String → Phase
  enter reference = checked_reference reference (validate_reference debug is_match reference)

  unfoldable pub on_digest : String → Result DriverError String → Phase
  on_digest reference (ok digest) = waiting reference digest
  on_digest reference (err e) = finished (err e)

  unfoldable pub on_exists : String → String → Result DriverError Bool → Phase
  on_exists reference digest (ok true) = finished (ok (alias_of digest))
  on_exists reference digest (ok false) = importing reference digest
  on_exists reference digest (err e) = finished (err e)

  unfoldable pub on_import : String → String → Result DriverError (Unit {0}) → Phase
  on_import reference digest (ok _) = finished (ok (alias_of digest))
  on_import reference digest (err e) = finished (err e)

  -- Whether a task in this phase holds the lock of an alias: `_guard` lives to the end of the call.
  unfoldable pub holds : String → Phase → Bool
  holds alias (checking reference digest) = alias_of digest == alias
  holds alias (importing reference digest) = alias_of digest == alias
  holds alias _ = false

  unfoldable pub is_held : System → String → Bool
  is_held s alias = any_below s.count (λ i. holds alias (s.phase i))

  -- One task goes on, or another client adds an alias. LXD answers truly or not at all, and an import
  -- that succeeds has registered its alias.
  pub data Step : System → System → Type 0 where
    starts :
        {s : System} {reference : String} (i : ℕ)
        → i < s.count
        → s.phase i ≡ begin reference
        → Step s (goes s i (enter reference))
    resolves :
        {s : System} {reference : String} (i : ℕ) (answer : Result DriverError String)
        → i < s.count
        → s.phase i ≡ resolving reference
        → Step s (goes s i (on_digest reference answer))
    locks :
        {s : System} {reference digest : String} (i : ℕ)
        → i < s.count
        → s.phase i ≡ waiting reference digest
        → is_held s (alias_of digest) ≡ false
        → Step s (goes s i (checking reference digest))
    checks :
        {s : System} {reference digest : String} (i : ℕ)
        → i < s.count
        → s.phase i ≡ checking reference digest
        → Step s (goes s i (on_exists reference digest (ok (contains s.images (alias_of digest)))))
    check_fails :
        {s : System} {reference digest : String} (i : ℕ) (e : DriverError)
        → i < s.count
        → s.phase i ≡ checking reference digest
        → Step s (goes s i (on_exists reference digest (err e)))
    imports :
        {s : System} {reference digest : String} (i : ℕ)
        → i < s.count
        → s.phase i ≡ importing reference digest
        → Step s (
            goes
              (record s {
                images = alias_of digest ∷ s.images;
                imports = alias_of digest ∷ s.imports;
              })
              i
              (on_import reference digest (ok tt)))
    import_fails :
        {s : System} {reference digest : String} (i : ℕ) (e : DriverError)
        → i < s.count
        → s.phase i ≡ importing reference digest
        → Step s (goes s i (on_import reference digest (err e)))
    others_add : {s : System} (alias : String) → Step s (record s { images = alias ∷ s.images })

  pub data Reach (s : System) : System → Type 0 where
    here : Reach s s
    next : {t u : System} → Reach s t → Step t u → Reach s u

-- Calls that have not begun, at an LXD with any aliases.
unfoldable pub initial : ℕ → (ℕ → String) → List String → System
initial count references images = record {
  count = count;
  phase = λ i. begin (references i);
  images = images;
  imports = [];
}
