-- ===== src/Tests/Binaries.antt =====
-- The theorem on the DHCP client's binary, at a host with one static program.
use openshell_driver_lxd.Common.{
  ◌≡◌, refl, ℕ, zero, suc, String, List, [], ◌∷◌, ◌++◌, none, some, ◌==◌, string_eq, if◌then◌else◌,
}
use openshell_driver_lxd.Lxd.Types.{ok}
use openshell_driver_lxd.DhcpClient.{
  slice, from_le_bytes, from_be_bytes, read_uint, read_header, type_at, no_interpreter,
  is_static_elf_bytes, is_static_elf, first_candidate, find_in_path, find_name, Host,
  resolve_dhcp_client_binary,
}
use openshell_driver_lxd.DhcpClient.Static.{Runs, resolve_dhcp_client_binary-Runs}

abbrev zeros : ℕ → List ℕ
zeros zero = []
zeros (suc n) = 0 ∷ zeros n

-- A 64-bit file in little endian with one program header, at its start.
abbrev program : List ℕ
program = 0x7f ∷ 0x45 ∷ 0x4c ∷ 0x46 ∷ 2 ∷ 1 ∷ (zeros 10 ++ 2 ∷ (zeros 37 ++ 56 ∷ 0 ∷ 1 ∷ zeros 7))

abbrev host : Host
host = record {
  is_executable = λ path. path == "/bin/udhcpc";
  contents = λ path. some program;
  path = some ("/usr/bin" ∷ "/bin" ∷ []);
  snap = none;
  join = λ dir name. if name == "udhcpc" then if dir == "/bin" then "/bin/udhcpc" else dir else dir;
}

abbrev quoted : String → String
quoted s = s

resolved : resolve_dhcp_client_binary host quoted none ≡ ok "/bin/udhcpc"
unfolding resolve_dhcp_client_binary find_name find_in_path first_candidate is_static_elf
    is_static_elf_bytes read_uint read_header type_at no_interpreter slice from_le_bytes
    from_be_bytes
resolved = refl

resolve_dhcp_client_binary-Runs_example : Runs host "/bin/udhcpc"
resolve_dhcp_client_binary-Runs_example =
    resolve_dhcp_client_binary-Runs host quoted none "/bin/udhcpc" resolved
