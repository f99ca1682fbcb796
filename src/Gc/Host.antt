-- ===== src/Gc/Host.antt =====
-- crates/openshell-driver-lxd/src/gc.rs: `collect_host`. A time is its nanoseconds after the epoch.
use openshell_driver_lxd.Common.{
  ◌≡◌, refl, ap, ◌∙◌, arith, ℕ, suc, ◌+◌, ◌-◌, ◌*◌, String, List, [], ◌∷◌, Option, none, some, Bool,
  true, false, ◌&&◌, ◌||◌, not, ◌==◌, string_eq, leb, ltb, if◌then◌else◌, any, keep, Bool-cases,
  inl, inr,
}
use openshell_driver_lxd.Common.Text.{starts_with}
use openshell_driver_lxd.Gc.{clean, is_digest}

-- An entry of a directory, with its time of modification if that can be read.
pub record Entry : Type 0 where
  pub name : String
  pub modified : Option ℕ

-- The host: the entries of a directory, none if it cannot be read, and whether `remove_dir_all` has
-- removed an entry of a directory.
pub record Host : Type 1 where
  pub State : Type 0
  pub read_dir : String → State → List Entry × State
  pub remove : (dir name : String) → State → Bool × State

-- The removals that were tried, the last one first: the directory and the entry's name.
pub record HostWorld (H : Host) : Type 0 where
  pub state : H.State
  pub removals : List (String × String)

abbrev pub stale_scratch_age : ℕ
stale_scratch_age = 24 * 60 * 60 * 1000000000

abbrev pub scratch_prefixes : List String
scratch_prefixes = "openshell-oci-import-" ∷ "openshell-supervisor-extract-" ∷ []

abbrev pub is_scratch : String → Bool
is_scratch name = any (λ prefix. starts_with name prefix) scratch_prefixes

-- `age.is_some_and(|age| age > STALE_SCRATCH_AGE)`; a time that is still to come has no age.
abbrev pub is_old : ℕ → Option ℕ → Bool
is_old now none = false
is_old now (some modified) = leb modified now && ltb stale_scratch_age (now - modified)

abbrev pub is_abandoned : ℕ → Entry → Bool
is_abandoned now e = is_scratch e.name && is_old now e.modified

abbrev pub is_other_binary : String → Entry → Bool
is_other_binary current e = is_digest e.name && not (e.name == clean current)

module _ (H : Host) where
  unfoldable pub remove : String → String → HostWorld H → Bool × HostWorld H
  remove dir name w =
      let (gone, state) = H.remove dir name w.state in
      (gone, record { state = state; removals = (dir, name) ∷ w.removals })

  -- The loop over the entries of a directory; how many were removed.
  unfoldable pub remove_entries :
      (Entry → Bool) → String → List Entry → HostWorld H → ℕ × HostWorld H
  remove_entries p dir [] w = (0, w)
  remove_entries p dir (e ∷ es) w =
      let (gone, v) = remove dir e.name w in
      let (n, last) = remove_entries p dir es v in
      let skipped = remove_entries p dir es w in
      if p e then (if gone then suc n else n, last) else skipped

  unfoldable pub remove_in : (Entry → Bool) → String → HostWorld H → ℕ × HostWorld H
  remove_in p dir w =
      let (es, state) = H.read_dir dir w.state in
      remove_entries p dir es (record w { state = state })

  abbrev pub collect_cache : String → Option String → HostWorld H → ℕ × HostWorld H
  collect_cache dir none w = (0, w)
  collect_cache dir (some current) w = remove_in (is_other_binary current) dir w

  unfoldable pub collect_host : String → Option String → String → ℕ → HostWorld H → ℕ × HostWorld H
  collect_host supervisor_cache_dir current work_dir now w =
      let (n, v) = collect_cache supervisor_cache_dir current w in
      let (m, last) = remove_in (is_abandoned now) work_dir v in (n + m, last)

-- The removals whose name satisfies a predicate.
abbrev pub removals_of : {H : Host} → (String → Bool) → HostWorld H → List (String × String)
removals_of p w = keep (λ r. p r.1) w.removals

-- The names that a clean-up leaves alone: those without a scratch prefix which are no digest, or the
-- digest of the current binary, or any digest where the current one is not known.
abbrev pub is_kept : Option String → String → Bool
is_kept none name = not (is_scratch name)
is_kept (some current) name =
    not (is_scratch name) && (name == clean current || not (is_digest name))

module _ (H : Host) (q : String → Bool) where
  remove_entries-keeps :
      (p : Entry → Bool) (dir : String) (es : List Entry) (w : HostWorld H)
      → ((e : Entry) → p e ≡ true → q e.name ≡ false)
      → removals_of q (remove_entries H p dir es w).1 ≡ removals_of q w
  unfolding remove_entries remove
  remove_entries-keeps p dir [] w h = refl
  remove_entries-keeps p dir (e ∷ es) w h = elim (Bool-cases (p e)) [
    | inr f ↦ rw f (remove_entries-keeps p dir es w h)
    | inl f ↦ rw f (
        remove_entries-keeps p dir es _ h
        ∙ ap (λ b. if b then (dir, e.name) ∷ removals_of q w else removals_of q w) (h e f))
  ]

  remove_in-keeps :
      (p : Entry → Bool) (dir : String) (w : HostWorld H)
      → ((e : Entry) → p e ≡ true → q e.name ≡ false)
      → removals_of q (remove_in H p dir w).1 ≡ removals_of q w
  unfolding remove_in
  remove_in-keeps p dir w h = remove_entries-keeps p dir (H.read_dir dir w.state).0 _ h

refuted : (s o : Bool) → (s && o) ≡ true → not s ≡ false
refuted true o h = refl
refuted false o h = absurd (ground (arith, h))

replaced : (s i m : Bool) → (i && not m) ≡ true → (not s && (m || not i)) ≡ false
replaced true i m h = refl
replaced false true false h = refl
replaced false true true h = absurd (ground (arith, h))
replaced false false m h = absurd (ground (arith, h))

abandoned-not_kept :
    (current : Option String) (now : ℕ) (e : Entry)
    → is_abandoned now e ≡ true
    → is_kept current e.name ≡ false
abandoned-not_kept none now e h = refuted (is_scratch e.name) (is_old now e.modified) h
abandoned-not_kept (some current) now e h =
    ap (λ b. b && (e.name == clean current || not (is_digest e.name)))
      (refuted (is_scratch e.name) (is_old now e.modified) h)

other-not_kept :
    (current : String) (e : Entry)
    → is_other_binary current e ≡ true
    → is_kept (some current) e.name ≡ false
other-not_kept current e h =
    replaced (is_scratch e.name) (is_digest e.name) (e.name == clean current) h

collect_cache-keeps :
    (H : Host) (dir : String) (current : Option String) (w : HostWorld H)
    → removals_of (is_kept current) (collect_cache H dir current w).1
      ≡ removals_of (is_kept current) w
collect_cache-keeps H dir none w = refl
collect_cache-keeps H dir (some current) w =
    remove_in-keeps H _ (is_other_binary current) dir w (other-not_kept current)

-- A clean-up of the host removes nothing whose name is to be kept: neither the binary of the current
-- digest, nor a file that is no digest and has no scratch prefix, nor, while the current digest is
-- not known, any binary at all.
pub collect_host-keeps :
    (H : Host) (cache : String) (current : Option String) (work : String) (now : ℕ)
    (w : HostWorld H)
    → removals_of (is_kept current) (collect_host H cache current work now w).1
      ≡ removals_of (is_kept current) w
unfolding collect_host
collect_host-keeps H cache current work now w =
    remove_in-keeps H _ (is_abandoned now) work _ (abandoned-not_kept current now)
    ∙ collect_cache-keeps H cache current w
