-- ===== src/DhcpClient.antt =====
-- crates/openshell-driver-lxd/src/dhcp_client.rs: `is_static_elf_bytes`, and the search for the DHCP
-- client's binary. A `usize` has 64 bits. An offset whose end passes the greatest `usize` wraps
-- around, as it does without overflow checks.
pub mod Static
use openshell_driver_lxd.Common.{
  ℕ, zero, suc, ◌+◌, ◌-◌, ◌*◌, ◌%◌, String, ◌<>◌, List, [], ◌∷◌, Option, none, some, Bool, true,
  false, ◌&&◌, ◌||◌, not, ◌==◌, nat_eq, leb, ltb, if◌then◌else◌, length, take, drop, get_elem?, map,
}
use openshell_driver_lxd.Lxd.Types.{Result, ok, err}
use openshell_driver_lxd.Errors.{DriverError, dhcp_client}

abbrev pub usize_values : ℕ
usize_values = 0x1_0000_0000_0000_0000

-- `bytes.get(from..to)`
unfoldable pub slice : List ℕ → ℕ → ℕ → Option (List ℕ)
slice bytes from to =
    if leb from to && leb to (length bytes) then some (take (to - from) (drop from bytes)) else none

unfoldable pub from_le_bytes : List ℕ → ℕ
from_le_bytes [] = 0
from_le_bytes (b ∷ bs) = b + 256 * from_le_bytes bs

unfoldable pub from_be_bytes : ℕ → List ℕ → ℕ
from_be_bytes n [] = n
from_be_bytes n (b ∷ bs) = from_be_bytes (n * 256 + b) bs

abbrev pub number_in : Bool → Option (List ℕ) → Option ℕ
number_in is_le none = none
number_in is_le (some bs) = some (if is_le then from_le_bytes bs else from_be_bytes 0 bs)

-- `read_u16`, `read_u32` and `read_u64`, for a width of 2, 4 and 8 bytes.
unfoldable pub read_uint : Bool → List ℕ → ℕ → ℕ → Option ℕ
read_uint is_le bytes width offset =
    number_in is_le (slice bytes offset ((offset + width) % usize_values))

-- Where the program headers are, the size of each, and how many there are.
pub record Header : Type 0 where
  pub phoff : ℕ
  pub phentsize : ℕ
  pub phnum : ℕ

abbrev pub header_of : Option ℕ → Option ℕ → Option ℕ → Option Header
header_of (some off) (some size) (some num) =
    some (record { phoff = off; phentsize = size; phnum = num })
header_of _ _ _ = none

abbrev pub byte_at : List ℕ → ℕ → ℕ
byte_at bytes i = elim (get_elem? bytes i) [ none ↦ 0 | some b ↦ b ]

unfoldable pub read_header : Bool → List ℕ → Option Header
read_header is_le bytes =
    if byte_at bytes 4 == 1
    then header_of (read_uint is_le bytes 4 28) (read_uint is_le bytes 2 42)
        (read_uint is_le bytes 2 44)
    else if byte_at bytes 4 == 2
    then if ltb (length bytes) 64
      then none
      else header_of (read_uint is_le bytes 8 32) (read_uint is_le bytes 2 54)
          (read_uint is_le bytes 2 56)
    else none

-- `checked_mul` and `checked_add`
abbrev pub checked : ℕ → Option ℕ
checked n = if ltb n usize_values then some n else none

abbrev pub checked_from : ℕ → Option ℕ → Option ℕ
checked_from offset none = none
checked_from offset (some n) = checked (offset + n)

abbrev pub type_from : Bool → List ℕ → Option ℕ → Option ℕ
type_from is_le bytes none = none
type_from is_le bytes (some offset) = read_uint is_le bytes 4 offset

-- The type of program header `i`.
unfoldable pub type_at : Bool → List ℕ → Header → ℕ → Option ℕ
type_at is_le bytes h i = type_from is_le bytes (checked_from h.phoff (checked (i * h.phentsize)))

abbrev pub pt_interp : ℕ
pt_interp = 3

abbrev pub is_other : Option ℕ → Bool
is_other none = false
is_other (some t) = not (t == pt_interp)

-- The loop over the program headers, from `i` on.
unfoldable pub no_interpreter : Bool → List ℕ → Header → ℕ → ℕ → Bool
no_interpreter is_le bytes h zero i = true
no_interpreter is_le bytes h (suc left) i =
    let rest = no_interpreter is_le bytes h left (suc i) in
    if is_other (type_at is_le bytes h i) then rest else false

abbrev pub accepts : Bool → List ℕ → Option Header → Bool
accepts is_le bytes none = false
accepts is_le bytes (some h) =
    if h.phnum == 0 || ltb h.phentsize 4 then false else no_interpreter is_le bytes h h.phnum 0

abbrev pub accepts_type : Bool → List ℕ → Option ℕ → Bool
accepts_type is_le bytes none = false
accepts_type is_le bytes (some t) =
    if not (t == 2) && not (t == 3) then false else accepts is_le bytes (read_header is_le bytes)

abbrev pub endianness : ℕ → Option Bool
endianness n = if n == 1 then some true else if n == 2 then some false else none

abbrev pub accepts_in : List ℕ → Option Bool → Bool
accepts_in bytes none = false
accepts_in bytes (some is_le) = accepts_type is_le bytes (read_uint is_le bytes 2 16)

abbrev pub is_magic : List ℕ → Bool
is_magic (a ∷ b ∷ c ∷ d ∷ _) = a == 0x7f && (b == 0x45 && (c == 0x4c && d == 0x46))
is_magic _ = false

unfoldable pub is_static_elf_bytes : List ℕ → Bool
is_static_elf_bytes bytes =
    if ltb (length bytes) 52 || not (is_magic bytes)
    then false
    else accepts_in bytes (endianness (byte_at bytes 5))

-- What the search asks of the host: whether a path is a file with an execute permission, what it holds
-- if it can be read, the directories of `PATH`, `SNAP`, and `Path::join`.
pub record Host : Type 0 where
  pub is_executable : String → Bool
  pub contents : String → Option (List ℕ)
  pub path : Option (List String)
  pub snap : Option String
  pub join : String → String → String

abbrev pub candidate_names : List String
candidate_names = "busybox-static" ∷ "udhcpc" ∷ "busybox" ∷ []

abbrev pub fallback_paths : List String
fallback_paths =
    "/usr/bin/busybox-static" ∷ "/bin/busybox-static" ∷ "/usr/sbin/udhcpc" ∷ "/usr/bin/udhcpc"
    ∷ "/sbin/udhcpc" ∷ "/bin/udhcpc" ∷ "/usr/bin/busybox" ∷ "/bin/busybox" ∷ []

abbrev pub snap_relative_paths : List String
snap_relative_paths =
    "usr/bin/busybox-static" ∷ "bin/busybox-static" ∷ "usr/sbin/udhcpc" ∷ "usr/bin/udhcpc"
    ∷ "bin/udhcpc" ∷ "sbin/udhcpc" ∷ "usr/bin/busybox" ∷ "bin/busybox" ∷ []

abbrev pub first_some : Option String → Option String → Option String
first_some none other = other
first_some (some p) other = some p

module _ (host : Host) where
  abbrev pub is_static_read : Option (List ℕ) → Bool
  is_static_read none = false
  is_static_read (some content) =
      let buffer = take 65536 content in
      if ltb (length buffer) 52 then false else is_static_elf_bytes buffer

  unfoldable pub is_static_elf : String → Bool
  is_static_elf path = is_static_read (host.contents path)

  abbrev pub is_candidate : String → Bool
  is_candidate path = host.is_executable path && is_static_elf path

  -- The first candidate of a list of paths.
  unfoldable pub first_candidate : List String → Option String
  first_candidate [] = none
  first_candidate (p ∷ ps) =
      let rest = first_candidate ps in if is_candidate p then some p else rest

  abbrev pub search_path : Option (List String) → String → Option String
  search_path none name = none
  search_path (some dirs) name = first_candidate (map (λ dir. host.join dir name) dirs)

  unfoldable pub find_in_path : String → Option String
  find_in_path name = search_path host.path name

  unfoldable pub find_name : List String → Option String
  find_name [] = none
  find_name (name ∷ names) = first_some (find_in_path name) (find_name names)

  abbrev pub find_in_snap : Option String → Option String
  find_in_snap none = none
  find_in_snap (some snap) = first_candidate (map (host.join snap) snap_relative_paths)

  abbrev pub found_or : Option String → Result DriverError String
  found_or (some path) = ok path
  found_or none = err (
      dhcp_client
        "no DHCP client binary found in environment; install udhcpc or busybox-static, or pass --dhcp-client-bin")

  abbrev pub checked_override : (String → String) → String → Result DriverError String
  checked_override debug path =
      if not (host.is_executable path)
      then err (
          dhcp_client (
            "configured DHCP client binary "
            <> (debug path <> " does not exist or is not executable")))
      else if not (is_static_elf path)
      then err (
          dhcp_client (
            "configured DHCP client binary "
            <> (debug path
                <> " is dynamically linked or not a static ELF executable; fallback DHCP client must be statically linked")))
      else ok path

  -- `debug` is the debug form of a path.
  unfoldable pub resolve_dhcp_client_binary :
      (String → String) → Option String → Result DriverError String
  resolve_dhcp_client_binary debug (some path) = checked_override debug path
  resolve_dhcp_client_binary debug none = found_or (
      first_some (find_name candidate_names)
        (first_some (find_in_snap host.snap) (first_candidate fallback_paths)))

  -- `read` reads a file, and `digest` is the digest of the binary together with the event script.
  module _ (read : String → Result String (List ℕ)) (digest : List ℕ → String)
      (debug : String → String) where
    abbrev pub loaded : String → Result String (List ℕ) → Result DriverError (List ℕ × String)
    loaded path (ok bytes) = ok (bytes, digest bytes)
    loaded path (err e) =
        err (dhcp_client ("failed to read DHCP client binary from " <> (debug path <> (": " <> e))))

    abbrev pub load_resolved : Result DriverError String → Result DriverError (List ℕ × String)
    load_resolved (ok path) = loaded path (read path)
    load_resolved (err e) = err e

    unfoldable pub load_dhcp_client : Option String → Result DriverError (List ℕ × String)
    load_dhcp_client override_path = load_resolved (resolve_dhcp_client_binary debug override_path)
