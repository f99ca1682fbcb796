-- ===== src/Image/Supervisor.antt =====
-- crates/openshell-driver-lxd/src/image.rs: the supervisor's binary on the host, `digest_of_file`,
-- `ImageCache::extract_supervisor_binary` and `is_valid_cached_binary`. The files, the
-- hash and the importer are parameters. The lock of a digest only orders the extractions.
use openshell_driver_lxd.Common.{
  ◌≡◌, refl, ℕ, ◌+◌, ◌/◌, ◌%◌, String, ◌<>◌, List, Bool, true, false, ◌||◌, not, ◌==◌, nat_eq,
  if◌then◌else◌, arith, inl, inr, Bool-cases, ◌⊎◌, subst,
}
use openshell_driver_lxd.Lxd.Types.{Result, ok, err}
use openshell_driver_lxd.Errors.{ok-injective, DriverError, image_import}
use openshell_driver_lxd.Driver.Checks.{validate_reference}
use openshell_driver_lxd.Gc.{clean}
use openshell_driver_lxd.Image.Manifest.{hex_digest}

pub record Metadata : Type 0 where
  pub is_symlink : Bool
  pub is_file : Bool
  pub uid : ℕ
  pub mode : ℕ

-- The files as the driver finds them: `symlink_metadata`, and what opening a path (not through a
-- symbolic link) and reading it answer; the driver's user; SHA-256, and `Path::join`.
pub record Files : Type 0 where
  pub metadata : String → Result String Metadata
  pub open_file : String → Result String String
  pub read_to_end : String → Result String (List ℕ)
  pub current_uid : ℕ
  pub sha256 : List ℕ → List ℕ
  pub join : String → String → String

-- The importer: the digest of a reference, and the extraction of its binary into a directory.
pub record Importer : Type 0 where
  pub resolve_digest : String → Result DriverError String
  pub extract : (reference cache_dir : String) → Result DriverError (String × String)

-- `metadata.file_type().is_symlink() || !metadata.is_file()`
abbrev pub is_irregular : Metadata → Bool
is_irregular m = m.is_symlink || not m.is_file

-- `mode & 0o111 == 0`
abbrev pub is_executable : ℕ → Bool
is_executable mode = not (mode % 2 + (mode / 8 % 2 + mode / 64 % 2) == 0)

abbrev failed : {A : Type 0} → String → String → String → Result DriverError A
failed verb path e =
    err
      (image_import ("failed to " <> (verb <> (" supervisor binary at " <> (path <> (": " <> e))))))

module _ (F : Files) where
  abbrev pub digest_of_read : String → Result String (List ℕ) → Result DriverError String
  digest_of_read path (ok bytes) = ok ("sha256:" <> hex_digest (F.sha256 bytes))
  digest_of_read path (err e) = failed "read" path e

  abbrev pub digest_of_open : String → Result String String → Result DriverError String
  digest_of_open path (ok file) = digest_of_read path (F.read_to_end file)
  digest_of_open path (err e) = failed "open" path e

  abbrev pub digest_of_stat : String → Result String Metadata → Result DriverError String
  digest_of_stat path (ok m) =
      if is_irregular m
      then err (
          image_import ("supervisor binary at " <> (path <> " is a symlink or not a regular file")))
      else digest_of_open path (F.open_file path)
  digest_of_stat path (err e) = failed "stat" path e

  unfoldable pub digest_of_file : String → Result DriverError String
  digest_of_file path = digest_of_stat path (F.metadata path)

  abbrev pub is_valid_metadata : Result String Metadata → Bool
  is_valid_metadata (err e) = false
  is_valid_metadata (ok m) =
      if is_irregular m
      then false
      else if not (m.uid == F.current_uid)
      then false
      else if not (is_executable m.mode)
      then false
      else true

  unfoldable pub is_valid_cached_binary : String → Bool
  is_valid_cached_binary path = is_valid_metadata (F.metadata path)

  module _ (I : Importer) (debug : String → String) (is_match : String → Bool) where
    -- The rest for a digest: the binary in the cache, or else a new extraction.
    abbrev pub cached_or_extracted :
        String → String → Result DriverError String → Result DriverError (String × String)
    cached_or_extracted reference cache_dir (err e) = err e
    cached_or_extracted reference cache_dir (ok digest) =
        let binary_path = F.join (F.join cache_dir (clean digest)) "openshell-sandbox" in
        if is_valid_cached_binary binary_path
        then ok (binary_path, digest)
        else I.extract reference cache_dir

    abbrev pub resolve_checked :
        String → String → Result DriverError (Unit {0}) → Result DriverError (String × String)
    resolve_checked reference cache_dir (err e) = err e
    resolve_checked reference cache_dir (ok _) =
        cached_or_extracted reference cache_dir (I.resolve_digest reference)

    unfoldable pub extract_supervisor_binary :
        String → String → Result DriverError (String × String)
    extract_supervisor_binary reference cache_dir =
        resolve_checked reference cache_dir (validate_reference debug is_match reference)

-- A regular file of the driver's user, no symbolic link, that somebody may execute.
abbrev pub IsOwnExecutable : Files → String → Type 0
IsOwnExecutable F path =
    (m : Metadata) × (F.metadata path ≡ ok m)
    × (m.is_symlink ≡ false)
    × (m.is_file ≡ true)
    × ((m.uid == F.current_uid) ≡ true)
    × (is_executable m.mode ≡ true)

valid-flags :
    (s f u x : Bool)
    → (if s || not f then false else if not u then false else if not x then false else true) ≡ true
    → (s ≡ false) × (f ≡ true) × (u ≡ true) × (x ≡ true)
valid-flags true f u x h = absurd (ground (arith, h))
valid-flags false false u x h = absurd (ground (arith, h))
valid-flags false true false x h = absurd (ground (arith, h))
valid-flags false true true false h = absurd (ground (arith, h))
valid-flags false true true true h = (refl, refl, refl, refl)

is_valid_cached_binary-IsOwnExecutable :
    (F : Files) (path : String) → is_valid_cached_binary F path ≡ true → IsOwnExecutable F path
unfolding is_valid_cached_binary
is_valid_cached_binary-IsOwnExecutable F path h = found (F.metadata path) refl h
  where
    found :
        (r : Result String Metadata)
        → F.metadata path ≡ r
        → is_valid_metadata F r ≡ true
        → IsOwnExecutable F path
    found (err e) same valid = absurd (ground (arith, valid))
    found (ok m) same valid =
        let (s, f, u, x) =
          valid-flags m.is_symlink m.is_file (m.uid == F.current_uid) (is_executable m.mode)
            valid in
        (m, same, s, f, u, x)

module _ (F : Files) (reference cache_dir : String) (resolved : Result DriverError String) where
  -- A path and a digest that the cache has for the reference.
  abbrev pub IsCached : String × String → Type 0
  IsCached found =
      (resolved ≡ ok found.1)
      × (found.0 ≡ F.join (F.join cache_dir (clean found.1)) "openshell-sandbox")
      × IsOwnExecutable F found.0

module _ (F : Files) (I : Importer) (debug : String → String) (is_match : String → Bool)
    (reference cache_dir : String) where
  cached_or_extracted-ok :
      (resolved : Result DriverError String) (found : String × String)
      → cached_or_extracted F I debug is_match reference cache_dir resolved ≡ ok found
      → (I.extract reference cache_dir ≡ ok found) ⊎ IsCached F reference cache_dir resolved found
  cached_or_extracted-ok (err e) found h = absurd (ground (arith, h))
  cached_or_extracted-ok (ok digest) found h =
      let path = F.join (F.join cache_dir (clean digest)) "openshell-sandbox" in
      elim (Bool-cases (is_valid_cached_binary F path)) [
        | inr f ↦ inl (rw f at h)
        | inl f ↦ inr (
            subst (IsCached F reference cache_dir (ok digest)) (ok-injective _ _ (rw f at h))
              (refl, refl, is_valid_cached_binary-IsOwnExecutable F path f))
      ]

  resolve_checked-ok :
      (checked : Result DriverError (Unit {0})) (found : String × String)
      → resolve_checked F I debug is_match reference cache_dir checked ≡ ok found
      → (I.extract reference cache_dir ≡ ok found)
        ⊎ IsCached F reference cache_dir (I.resolve_digest reference) found
  resolve_checked-ok (err e) found h = absurd (ground (arith, h))
  resolve_checked-ok (ok _) found h = cached_or_extracted-ok (I.resolve_digest reference) found h

-- What `extract_supervisor_binary` returns is either what the importer has extracted, or the path
-- `<cache_dir>/<digest>/openshell-sandbox` for the reference's digest, where there is a regular file of
-- the driver's user, no symbolic link, that somebody may execute.
pub extract_supervisor_binary-ok :
    (F : Files) (I : Importer) (debug : String → String) (is_match : String → Bool)
    (reference cache_dir path digest : String)
    → extract_supervisor_binary F I debug is_match reference cache_dir ≡ ok (path, digest)
    → (I.extract reference cache_dir ≡ ok (path, digest))
      ⊎ ((I.resolve_digest reference ≡ ok digest)
          × (path ≡ F.join (F.join cache_dir (clean digest)) "openshell-sandbox")
          × IsOwnExecutable F path)
unfolding extract_supervisor_binary
extract_supervisor_binary-ok F I debug is_match reference cache_dir path digest h =
    resolve_checked-ok F I debug is_match reference cache_dir
      (validate_reference debug is_match reference) (path, digest) h
