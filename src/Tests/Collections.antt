-- ===== src/Tests/Collections.antt =====
-- The theorem on the clean-up of LXD and the host, at a concrete input.
use openshell_driver_lxd.Common.{ℕ, ◌*◌, ◌<>◌, [], ◌∷◌, none, some, true, false}
use openshell_driver_lxd.Lxd.Types.{ok, err}
use openshell_driver_lxd.Gc.Run.{Run}
use openshell_driver_lxd.Errors.{image_import}
use openshell_driver_lxd.Gc.Host.{Host, HostWorld}
use openshell_driver_lxd.Driver.Garbage.{Finds}
use openshell_driver_lxd.Tests.{quoted}

-- Where every file is an executable of the driver's user.
abbrev finds : Finds
finds = record {
  files = record {
    metadata = λ path. ok (record { is_symlink = false; is_file = true; uid = 7; mode = 0x1ED });
    open_file = λ path. ok path;
    read_to_end = λ file. ok [];
    current_uid = 7;
    sha256 = λ bytes. bytes;
    join = λ a b. a <> ("/" <> b);
  };
  importer = record {
    resolve_digest = λ reference. ok "sha256:ab";
    extract = λ reference cache_dir. err (image_import "no network");
  };
  search = record {
    is_executable = λ path. true;
    contents = λ path. none;
    path = none;
    snap = none;
    join = λ dir name. dir <> ("/" <> name);
  };
  read = λ path. ok [];
  dhcp_client_digest = λ bytes. "sha256:cd";
  debug = quoted;
  is_match = λ reference. true;
  to_string = λ e. "";
}

-- A host with an old scratch directory in each of its directories, which it lets go.
abbrev host : Host
host = record {
  State = Unit;
  read_dir = λ dir s. (record { name = "openshell-oci-import-1"; modified = some 0 } ∷ [], s);
  remove = λ dir name s. (true, s);
}

abbrev untouched : HostWorld host
untouched = record { state = tt; removals = [] }

abbrev two_days : ℕ
two_days = 48 * 60 * 60 * 1000000000
