-- ===== src/Image/Reference/Parts.antt =====
-- crates/openshell-driver-lxd/src/image.rs, `repo_path` and `inspect_target`, on references that are
-- put together from their parts.
use text.Mathlib.TextLemmas.{append_assoc, append-nil}
use openshell_driver_lxd.Common.{
  String, ◌<>◌, Option, none, some, ◌≡◌, refl, ap, sym, ◌∙◌, Bool, true, false, if◌then◌else◌,
}
use openshell_driver_lxd.Common.Text.{
  strip_prefix, strip_prefix-append, rsplit_once, rfind, Lacks, all_chars,
}
use openshell_driver_lxd.Common.Text.Splits.{
  Lacks-append, rsplit_once-Lacks, rsplit_once-before, rsplit_once-last, rfind-Lacks, rfind-last,
}
use openshell_driver_lxd.Image.Reference.{
  strip_docker_scheme, cut_digest, without_digest, cut_unless, cut_tag, without_tag, target_of,
  repo_path, inspect_target,
}

-- A reference as its grammar has it. `parent` is what stands before the last slash, registry and
-- port included.
pub record Parts : Type 0 where
  pub scheme : Bool
  pub parent : Option String
  pub last : String
  pub tag : Option String
  pub digest : Option String

abbrev pub IfAny : (String → Type 0) → Option String → Type 0
IfAny P none = Unit
IfAny P (some text) = P text

abbrev pub IsPlain : String → Type 0
IsPlain text = Lacks b'@' text × Lacks b':' text × Lacks b'/' text

pub record IsReference (r : Parts) : Type 0 where
  pub parent : IfAny (Lacks b'@') r.parent
  pub last : IsPlain r.last
  pub tag : IfAny IsPlain r.tag
  pub digest : IfAny (Lacks b'@') r.digest

abbrev pub path_of : Option String → String → String
path_of none last = last
path_of (some dir) last = dir <> ("/" <> last)

abbrev pub path : Parts → String
path r = path_of r.parent r.last

abbrev pub tag_text : Option String → String
tag_text none = ""
tag_text (some tag) = ":" <> tag

abbrev pub digest_text : Option String → String
digest_text none = ""
digest_text (some hex) = "@sha256:" <> hex

abbrev pub bare : Parts → String
bare r = path r <> (tag_text r.tag <> digest_text r.digest)

abbrev pub reference : Parts → String
reference r = if r.scheme then "docker://" <> bare r else bare r

path-Lacks :
    (parent : Option String) (last : String)
    → IfAny (Lacks b'@') parent
    → Lacks b'@' last
    → Lacks b'@' (path_of parent last)
unfolding all_chars
path-Lacks none last h k = k
path-Lacks (some dir) last h k =
    Lacks-append b'@' dir ("/" <> last) h (Lacks-append b'@' "/" last refl k)

no_digest : (name : String) → Lacks b'@' name → rfind "@sha256:" name ≡ none
no_digest name h = rfind-Lacks "@" "sha256:" name h

a_digest :
    (name hex : String)
    → Lacks b'@' hex
    → rfind "@sha256:" (name <> ("@sha256:" <> hex)) ≡ some (name, "@sha256:" <> hex)
unfolding all_chars
a_digest name hex h = rfind-last "@" "sha256:" name hex (Lacks-append b'@' "sha256:" hex refl h)

-- The digest is cut off.
without_digest-text :
    (name : String) (digest : Option String)
    → Lacks b'@' name
    → IfAny (Lacks b'@') digest
    → without_digest (name <> digest_text digest) ≡ name
without_digest-text name none h k = rw append-nil (ap (cut_digest name) (no_digest name h))
without_digest-text name (some hex) h k =
    ap (cut_digest (name <> ("@sha256:" <> hex))) (a_digest name hex k)

-- A tag is cut off.
cut_tag-tag : (name tag : String) → IsPlain tag → without_tag (name <> (":" <> tag)) ≡ name
cut_tag-tag name tag h =
    ap (cut_tag (name <> (":" <> tag))) (rsplit_once-last ":" name tag h.1)
    ∙ ap (cut_unless (name <> (":" <> tag)) name) (rsplit_once-Lacks b'/' tag h.2)

-- A port is not: what comes after a colon in the parent still has the last slash.
cut_port :
    (dir last : String) (o : Option (String × String))
    → IsPlain last
    → cut_tag
        (dir <> ("/" <> last))
        (elim o [ none ↦ none | some (a, b) ↦ some (a, b <> ("/" <> last)) ])
      ≡ dir <> ("/" <> last)
cut_port dir last none h = refl
cut_port dir last (some (a, b)) h =
    ap (cut_unless (dir <> ("/" <> last)) a) (rsplit_once-last "/" b last h.2)

slash-Lacks : (last : String) → IsPlain last → Lacks b':' ("/" <> last)
unfolding all_chars
slash-Lacks last h = Lacks-append b':' "/" last refl h.1

cut_tag-path :
    (parent : Option String) (last : String)
    → IsPlain last
    → without_tag (path_of parent last) ≡ path_of parent last
cut_tag-path none last h = ap (cut_tag last) (rsplit_once-Lacks b':' last h.1)
cut_tag-path (some dir) last h =
    ap (cut_tag (dir <> ("/" <> last)))
      (rsplit_once-before b':' dir ("/" <> last) (slash-Lacks last h))
    ∙ cut_port dir last (rsplit_once b':' dir) h

without_tag-text :
    (parent : Option String) (last : String) (tag : Option String)
    → IsPlain last
    → IfAny IsPlain tag
    → without_tag (path_of parent last <> tag_text tag) ≡ path_of parent last
without_tag-text parent last none h k = rw append-nil (cut_tag-path parent last h)
without_tag-text parent last (some tag) h k = cut_tag-tag (path_of parent last) tag k

tag_text-Lacks : (tag : Option String) → IfAny IsPlain tag → Lacks b'@' (tag_text tag)
unfolding all_chars
tag_text-Lacks none h = refl
tag_text-Lacks (some tag) h = Lacks-append b'@' ":" tag refl h.0

-- What identifies the image in its repository: the digest, or else the tag.
abbrev pub pin : Parts → String
pin r = elim r.digest [ none ↦ tag_text r.tag | some hex ↦ "@sha256:" <> hex ]

module _ (r : Parts) (plain : IsReference r)
    (schemeless : strip_prefix (bare r) "docker://" ≡ none) where
  abbrev name : String
  name = path r <> tag_text r.tag

  strip_bare : strip_docker_scheme (bare r) ≡ bare r
  unfolding strip_docker_scheme
  strip_bare = ap (λ o. elim o [ none ↦ bare r | some x ↦ x ]) schemeless

  strip_any :
      (b : Bool) → strip_docker_scheme (if b then "docker://" <> bare r else bare r) ≡ bare r
  unfolding strip_docker_scheme
  strip_any true =
      ap (λ o. elim o [ none ↦ "docker://" <> bare r | some x ↦ x ])
        (strip_prefix-append "docker://" (bare r))
  strip_any false = strip_bare

  name-Lacks : Lacks b'@' name
  name-Lacks =
      Lacks-append b'@' (path r) (tag_text r.tag)
        (path-Lacks r.parent r.last plain.parent plain.last.0) (tag_text-Lacks r.tag plain.tag)

  regrouped : bare r ≡ name <> digest_text r.digest
  regrouped = sym (append_assoc (path r) (tag_text r.tag) (digest_text r.digest))

  bare-path : without_tag (without_digest (bare r)) ≡ path r
  bare-path =
      ap (λ t. without_tag (without_digest t)) regrouped
      ∙ (ap without_tag (without_digest-text name r.digest name-Lacks plain.digest)
          ∙ without_tag-text r.parent r.last r.tag plain.last plain.tag)

  repo_path-bare : repo_path (bare r) ≡ path r
  unfolding repo_path
  repo_path-bare = ap (λ t. without_tag (without_digest t)) strip_bare ∙ bare-path

  target-bare :
      (digest : Option String)
      → IfAny (Lacks b'@') digest
      → bare r ≡ name <> digest_text digest
      → target_of (bare r) (rfind "@sha256:" (bare r))
        ≡ "docker://"
          <> (path r <> elim digest [ none ↦ tag_text r.tag | some hex ↦ "@sha256:" <> hex ])
  target-bare none h e =
      let plain_name : bare r ≡ name = e ∙ append-nil name in
      ap (λ t. target_of t (rfind "@sha256:" t)) plain_name
      ∙ ap (target_of name) (no_digest name name-Lacks)
  target-bare (some hex) h e =
      ap (λ t. target_of (bare r) (rfind "@sha256:" t)) e
      ∙ (ap (target_of (bare r)) (a_digest name hex h)
          ∙ ap (λ t. "docker://" <> (t <> ("@sha256:" <> hex))) repo_path-bare)

-- A reference put together from its parts, with the scheme or without it: the repository's path is
-- what it was put together from, its registry and port included, and the target to inspect is that
-- path with the digest, or with the tag where there is no digest, and never with both.
pub inspect_target-reference :
    (r : Parts)
    → IsReference r
    → strip_prefix (bare r) "docker://" ≡ none
    → (repo_path (reference r) ≡ path r)
      × (inspect_target (reference r) ≡ "docker://" <> (path r <> pin r))
unfolding repo_path inspect_target
inspect_target-reference r plain schemeless =
    let stripped = strip_any r plain schemeless r.scheme in
    (
      ap (λ t. without_tag (without_digest t)) stripped ∙ bare-path r plain schemeless,
      ap (λ t. target_of t (rfind "@sha256:" t)) stripped
          ∙ target-bare r plain schemeless r.digest plain.digest (regrouped r plain schemeless),
    )
