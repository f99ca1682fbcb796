-- ===== src/DhcpClient/Static.antt =====
-- crates/openshell-driver-lxd/src/dhcp_client.rs: what a binary that the search accepts is.
use openshell_driver_lxd.Common.{
  ◌≡◌, refl, ℕ, zero, suc, ◌+◌, ◌*◌, ◌%◌, ◌≤◌, ◌<◌, ◌≢◌, String, List, [], ◌∷◌, Option, none, some,
  Bool, true, ◌||◌, not, ◌==◌, nat_eq, ltb, length, take, arith, Bool-cases, inl, inr, map, subst,
  ◌⊎◌, ◌∙◌, false,
}
use openshell_driver_lxd.Lxd.Types.{ok}
use openshell_driver_lxd.DhcpClient.{
  usize_values, slice, number_in, read_uint, Header, byte_at, read_header, type_at, pt_interp,
  is_other, no_interpreter, accepts, accepts_type, endianness, accepts_in, is_magic,
  is_static_elf_bytes, Host, is_static_read, is_static_elf, is_candidate, first_candidate,
  search_path, find_in_path, find_name, find_in_snap, found_or, checked_override, first_some,
  resolve_dhcp_client_binary, candidate_names, fallback_paths, snap_relative_paths,
}

-- Program header `i`: its type, the first four bytes of it, lies within the bytes, and is no request
-- for an interpreter.
pub record Direct (is_le : Bool) (bytes : List ℕ) (h : Header) (i : ℕ) : Type 0 where
  pub type : ℕ
  pub read : read_uint is_le bytes 4 (h.phoff + i * h.phentsize) ≡ some type
  pub within : h.phoff + i * h.phentsize + 4 ≤ length bytes
  pub other : type ≢ pt_interp

-- `EI_DATA`, at index 5, says that numbers stand with their low byte first, or with their high one.
pub data Order (bytes : List ℕ) : Bool → Type 0 where
  low_first : byte_at bytes 5 ≡ 1 → Order bytes true
  high_first : byte_at bytes 5 ≡ 2 → Order bytes false

-- An ELF file of a program: it starts with the magic number, its type is `ET_EXEC` or `ET_DYN`, and every
-- program header, in the byte order of the file, is such, and there is one at least.
pub record IsStatic (bytes : List ℕ) : Type 0 where
  pub magic : take 4 bytes ≡ 0x7f ∷ 0x45 ∷ 0x4c ∷ 0x46 ∷ []
  pub is_le : Bool
  pub order : Order bytes is_le
  pub program : (read_uint is_le bytes 2 16 ≡ some 2) ⊎ (read_uint is_le bytes 2 16 ≡ some 3)
  pub header : Header
  pub found : read_header is_le bytes ≡ some header
  pub some_header : 0 < header.phnum
  pub direct : (i : ℕ) → i < header.phnum → Direct is_le bytes header i

module _ (is_le : Bool) (bytes : List ℕ) where
  number_in-some :
      (o : Option (List ℕ)) (n : ℕ) → number_in is_le o ≡ some n → (bs : List ℕ) × (o ≡ some bs)
  number_in-some none n h = cc (h)
  number_in-some (some bs) n h = (bs, refl)

  slice-within :
      (offset : ℕ) (bs : List ℕ)
      → slice bytes offset ((offset + 4) % usize_values) ≡ some bs
      → offset < usize_values
      → offset + 4 ≤ length bytes
  unfolding slice
  slice-within offset bs h lt = ground (arith, h, lt)

  read_uint-within :
      (offset t : ℕ)
      → read_uint is_le bytes 4 offset ≡ some t
      → offset < usize_values
      → offset + 4 ≤ length bytes
  unfolding read_uint
  read_uint-within offset t e lt =
      let (bs, there) = number_in-some (slice bytes offset ((offset + 4) % usize_values)) t e in
      slice-within offset bs there lt

  module _ (h : Header) where
    -- A type that is read is read at the program header's offset, which is a `usize`.
    type_at-some :
        (i t : ℕ)
        → type_at is_le bytes h i ≡ some t
        → (read_uint is_le bytes 4 (h.phoff + i * h.phentsize) ≡ some t)
          × (h.phoff + i * h.phentsize < usize_values)
    unfolding type_at
    type_at-some i t e = elim (Bool-cases (ltb (i * h.phentsize) usize_values)) [
      | inr f ↦ cc (rw f at e)
      | inl f ↦
          let e' = rw f at e in
          elim (Bool-cases (ltb (h.phoff + i * h.phentsize) usize_values)) [
            | inr g ↦ cc (rw g at e')
            | inl g ↦ (rw g at e', ground (arith, g))
          ]
    ]

    is_other-Direct :
        (i : ℕ) (o : Option ℕ)
        → type_at is_le bytes h i ≡ o
        → is_other o ≡ true
        → Direct is_le bytes h i
    is_other-Direct i none e f = cc (f)
    is_other-Direct i (some t) e f =
        let (there, lt) = type_at-some i t e in
        record {
          type = t;
          read = there;
          within = read_uint-within (h.phoff + i * h.phentsize) t there lt;
          other = λ same. ground (arith, f, same);
        }

    no_interpreter-Direct :
        (left i : ℕ)
        → no_interpreter is_le bytes h left i ≡ true
        → (j : ℕ) → i ≤ j
        → j < i + left
        → Direct is_le bytes h j
    unfolding no_interpreter
    no_interpreter-Direct zero i e j p q = absurd (omega arith)
    no_interpreter-Direct (suc left) i e j p q =
        elim (Bool-cases (is_other (type_at is_le bytes h i))) [
          | inr f ↦ cc (rw f at e)
          | inl f ↦ elim (Bool-cases (i == j)) [
            | inl same ↦
                let eq : i ≡ j = ground (arith, same) in
                subst (Direct is_le bytes h) eq (is_other-Direct i (type_at is_le bytes h i) refl f)
            | inr apart ↦
                no_interpreter-Direct left (suc i) (rw f at e) j (ground (arith, apart, p))
                  (omega arith)
          ]
        ]

  accepts-IsStatic :
      (o : Option Header)
      → take 4 bytes ≡ 0x7f ∷ 0x45 ∷ 0x4c ∷ 0x46 ∷ []
      → Order bytes is_le
      → (read_uint is_le bytes 2 16 ≡ some 2) ⊎ (read_uint is_le bytes 2 16 ≡ some 3)
      → read_header is_le bytes ≡ o
      → accepts is_le bytes o ≡ true
      → IsStatic bytes
  accepts-IsStatic none magic order program found e = cc (e)
  accepts-IsStatic (some h) magic order program found e =
      elim (Bool-cases (h.phnum == 0 || ltb h.phentsize 4)) [
        | inl f ↦ cc (rw f at e)
        | inr f ↦ record {
          magic = magic;
          is_le = is_le;
          order = order;
          program = program;
          header = h;
          found = found;
          some_header = ground (arith, f);
          direct =
              λ i lt. no_interpreter-Direct h h.phnum 0 (rw f at e) i (omega arith) (omega arith);
        }
      ]

  accepts_type-IsStatic :
      (o : Option ℕ)
      → take 4 bytes ≡ 0x7f ∷ 0x45 ∷ 0x4c ∷ 0x46 ∷ []
      → Order bytes is_le
      → read_uint is_le bytes 2 16 ≡ o
      → accepts_type is_le bytes o ≡ true
      → IsStatic bytes
  accepts_type-IsStatic none magic order read e = cc (e)
  accepts_type-IsStatic (some t) magic order read e = elim (Bool-cases (t == 2)) [
    | inl f ↦
        let same : t ≡ 2 = ground (arith, f) in
        accepts-IsStatic (read_header is_le bytes) magic order (inl (cc (read, same))) refl
          (rw f at e)
    | inr f ↦ elim (Bool-cases (t == 3)) [
      | inl g ↦
          let same : t ≡ 3 = ground (arith, g) in
          accepts-IsStatic (read_header is_le bytes) magic order (inr (cc (read, same))) refl
            (rw (f, g) at e)
      | inr g ↦ cc (rw (f, g) at e)
    ]
  ]

accepts_in-IsStatic :
    (bytes : List ℕ) (n : ℕ)
    → take 4 bytes ≡ 0x7f ∷ 0x45 ∷ 0x4c ∷ 0x46 ∷ []
    → byte_at bytes 5 ≡ n
    → accepts_in bytes (endianness n) ≡ true
    → IsStatic bytes
accepts_in-IsStatic bytes n magic data_byte e = elim (Bool-cases (n == 1)) [
  | inl f ↦
      let same : n ≡ 1 = ground (arith, f) in
      accepts_type-IsStatic true bytes (read_uint true bytes 2 16) magic
        (low_first (data_byte ∙ same)) refl (rw f at e)
  | inr f ↦ elim (Bool-cases (n == 2)) [
    | inl g ↦
        let same : n ≡ 2 = ground (arith, g) in
        accepts_type-IsStatic false bytes (read_uint false bytes 2 16) magic
          (high_first (data_byte ∙ same)) refl (rw (f, g) at e)
    | inr g ↦ cc (rw (f, g) at e)
  ]
]

magic_bytes :
    (bytes : List ℕ) → is_magic bytes ≡ true → take 4 bytes ≡ 0x7f ∷ 0x45 ∷ 0x4c ∷ 0x46 ∷ []
magic_bytes [] e = cc (e)
magic_bytes (a ∷ []) e = cc (e)
magic_bytes (a ∷ b ∷ []) e = cc (e)
magic_bytes (a ∷ b ∷ c ∷ []) e = cc (e)
magic_bytes (a ∷ b ∷ c ∷ d ∷ rest) e =
    let ea : a ≡ 0x7f = ground (arith, e) in
    let eb : b ≡ 0x45 = ground (arith, e) in
    let ec : c ≡ 0x4c = ground (arith, e) in
    let ed : d ≡ 0x46 = ground (arith, e) in cc (ea, eb, ec, ed)

is_static_elf_bytes-IsStatic : (bytes : List ℕ) → is_static_elf_bytes bytes ≡ true → IsStatic bytes
unfolding is_static_elf_bytes
is_static_elf_bytes-IsStatic bytes e =
    elim (Bool-cases (ltb (length bytes) 52 || not (is_magic bytes))) [
      | inl f ↦ cc (rw f at e)
      | inr f ↦
          accepts_in-IsStatic bytes (byte_at bytes 5) (magic_bytes bytes (ground (arith, f))) refl
            (rw f at e)
    ]

module _ (host : Host) where
  -- An executable file, of which the first 65536 bytes are those of a static program.
  pub record Runs (path : String) : Type 0 where
    pub executable : host.is_executable path ≡ true
    pub content : List ℕ
    pub readable : host.contents path ≡ some content
    pub static : IsStatic (take 65536 content)

  is_static_read-Runs :
      (path : String) (o : Option (List ℕ))
      → host.is_executable path ≡ true
      → host.contents path ≡ o
      → is_static_read host o ≡ true
      → Runs path
  is_static_read-Runs path none x r e = cc (e)
  is_static_read-Runs path (some content) x r e =
      elim (Bool-cases (ltb (length (take 65536 content)) 52)) [
        | inl f ↦ cc (rw f at e)
        | inr f ↦ record {
          executable = x;
          content = content;
          readable = r;
          static = is_static_elf_bytes-IsStatic (take 65536 content) (rw f at e);
        }
      ]

  is_candidate-Runs : (path : String) → is_candidate host path ≡ true → Runs path
  unfolding is_static_elf
  is_candidate-Runs path e =
      is_static_read-Runs path (host.contents path) (ground (arith, e)) refl (ground (arith, e))

  -- What an optional path names, if there is one.
  abbrev Found : Option String → Type 0
  Found none = Unit {0}
  Found (some path) = Runs path

  first_candidate-Found : (ps : List String) → Found (first_candidate host ps)
  unfolding first_candidate
  first_candidate-Found [] = tt
  first_candidate-Found (p ∷ ps) = elim (Bool-cases (is_candidate host p)) [
    | inl f ↦ rw f (is_candidate-Runs p f)
    | inr f ↦ rw f (first_candidate-Found ps)
  ]

  first_some-Found : (o p : Option String) → Found o → Found p → Found (first_some o p)
  first_some-Found none p h k = k
  first_some-Found (some path) p h k = h

  search_path-Found :
      (dirs : Option (List String)) (name : String) → Found (search_path host dirs name)
  search_path-Found none name = tt
  search_path-Found (some dirs) name = first_candidate-Found (map (λ dir. host.join dir name) dirs)

  find_name-Found : (names : List String) → Found (find_name host names)
  unfolding find_name find_in_path
  find_name-Found [] = tt
  find_name-Found (name ∷ names) =
      first_some-Found (find_in_path host name) (find_name host names)
        (search_path-Found host.path name) (find_name-Found names)

  find_in_snap-Found : (snap : Option String) → Found (find_in_snap host snap)
  find_in_snap-Found none = tt
  find_in_snap-Found (some snap) = first_candidate-Found (map (host.join snap) snap_relative_paths)

  found_or-Runs :
      (o : Option String) (path : String) → Found o → found_or host o ≡ ok path → Runs path
  found_or-Runs none path h e = cc (e)
  found_or-Runs (some p) path h e = subst Runs (cc (e)) h

  checked_override-Runs :
      (debug : String → String) (p path : String)
      → checked_override host debug p ≡ ok path
      → Runs path
  checked_override-Runs debug p path e = elim (Bool-cases (host.is_executable p)) [
    | inr f ↦ cc (rw f at e)
    | inl f ↦
        let e' = rw f at e in
        elim (Bool-cases (is_static_elf host p)) [
          | inr g ↦ cc (rw g at e')
          | inl g ↦ subst Runs (cc (rw g at e')) (is_candidate-Runs p (rw f (rw g refl)))
        ]
  ]

-- Whatever the host holds, and with an override or without: a DHCP client that is resolved is an
-- executable file, and the first 65536 bytes of it are those of an ELF program with a program header
-- table, of which no header, read in the file's own byte order, asks for an interpreter, and the type of
-- every header lies within these bytes.
pub resolve_dhcp_client_binary-Runs :
    (host : Host) (debug : String → String) (asked : Option String) (path : String)
    → resolve_dhcp_client_binary host debug asked ≡ ok path
    → Runs host path
unfolding resolve_dhcp_client_binary
resolve_dhcp_client_binary-Runs host debug (some p) path e =
    checked_override-Runs host debug p path e
resolve_dhcp_client_binary-Runs host debug none path e =
    found_or-Runs host _ path
      (first_some-Found host (find_name host candidate_names)
        (first_some (find_in_snap host host.snap) (first_candidate host fallback_paths))
        (find_name-Found host candidate_names)
        (first_some-Found host (find_in_snap host host.snap) (first_candidate host fallback_paths)
          (find_in_snap-Found host host.snap) (first_candidate-Found host fallback_paths)))
      e
