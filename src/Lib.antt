-- ===== src/Lib.antt =====
-- openshell-driver-lxd: a compute driver that runs OpenShell sandboxes as LXD instances. The gateway
-- asks it over gRPC to create, start, stop, delete and list sandboxes; it turns each request into
-- calls of the LXD REST API, and reports what LXD says as sandboxes with a condition. A watcher
-- forwards LXD's lifecycle events, and a collector removes old images and volumes.
--
-- The files, and the code that each is about (paths from the repository's root):
-- - Common: names shared by all; texts, maps and decimal numbers as the program uses them.
-- - Lxd: crates/lxd-client/src, its errors (error.rs), data (types.rs), resource quantities
--   (resources.rs), and the daemon as the parameter `Lxd`: the answer to each call of an `LxdClient`
--   method in a state that each call may change. An action of the driver (Lxd/Actions) goes from a
--   world, which holds the daemon's state, the calls made and the table of lifecycle locks, to a
--   result and a world. The methods that the client makes of several calls are chains of calls
--   (Lxd/Client): `ensure_network_acl` (Lxd/Acls, acls.rs) and the volumes (Lxd/Volumes,
--   storage.rs). Lxd/Operations is `wait_operation` (operations.rs), as the stages between its
--   questions to LXD; Lxd/SplitImageBody the body of an image upload (split_image_body.rs); Lxd/Files
--   `push_file_into_instance` (instances.rs); Lxd/Http the requests and their answers, and Lxd/Trust
--   `build_connector` and `parse_fingerprint` (client.rs). Lxd/Quiet and Lxd/AtMost tell which calls
--   an action makes, and how often.
-- - Errors: crates/openshell-driver-lxd/src/error.rs, `DriverError` and its gRPC status.
-- - Config: config.rs beside it, the options that the driver's logic reads, and `Config::validate`.
-- - Mapping: mapping.rs, `ready_condition` and `to_driver_sandbox` (Mapping), the request
--   (Mapping/Request), `build_create_config` (Mapping/Config), and `Placement` and
--   `build_create_devices` (Mapping/Devices).
-- - Driver: driver.rs, the methods of `LxdComputeDriver` on sandboxes that exist: get, list and
--   lookup by id (Driver/Reads), start (Driver/Start), stop (Driver/Stop), delete (Driver/Delete);
--   `create_sandbox`: its checks (Driver/Checks), what it provides with `ensure_egress_acl`, and the
--   whole of it (Driver/Create/Provision), and its end, from `create_instance` on, with the clean-up
--   after a failure (Driver/Create); `collect_garbage` over LXD and the host (Driver/Garbage).
-- - Egress: egress.rs, `public_ipv4_cidrs`, and the rules of the egress ACL (Egress/Rules).
-- - Image: image.rs, the parts of a reference (Image/Reference), `select_arch_digest`
--   (Image/Manifest), `ImageCache::resolve_alias` with any number of calls at once (Image/Cache),
--   `resolve_in_rootfs` (Image/Rootfs), `decode_rootless_owner` (Image/Owner), the supervisor's binary
--   in its cache (Image/Supervisor), `inject_init_script` and `install_init` (Image/Init), and the
--   upload at the end of `import` (Image/Import).
-- - DhcpClient: dhcp_client.rs, the check of a static ELF file, the search for the binary and its
--   loading, at a host that is a parameter.
-- - Grpc: grpc.rs, `resolve_name` and the handlers on sandboxes that exist, over the driver's methods.
-- - Gc: gc.rs, with the files of the host (Gc/Host), and the names of cached images (image.rs) and
--   volumes (mapping.rs).
-- - Watcher: watcher.rs, given the events that a subscription yields.
-- - Tests: the theorems at concrete inputs, and runs, at a toy LXD.
--
-- A method that holds a lifecycle lock is one action; what other tasks, guests and LXD do meanwhile is
-- in the daemon's answers, which the theorems leave arbitrary. Time passes in the daemon's `sleep`.
-- The debug form of a text, the match of a regular expression, floating-point numbers, and the JSON
-- printer are parameters.
--
-- Loops are structural, except where fuel is written. In Egress, `shrink` and `trailing_zeros` have 64,
-- the width of a u64, and `range_blocks` has the number of addresses of its range plus one; `show` of
-- Common/Decimal has the number printed plus one, and each turn divides it by ten. `settle` is on the
-- attempts left. `decode_fields` of Image/Owner has the number of bytes, of which each turn takes one at
-- least. `resolve` of Image/Rootfs is on the symlinks that may be followed yet, 40 at first, and
-- between two of them on the components that are left. `polls` of Lxd/SplitImageBody is on the number
-- of polls that the client of the body makes; Lxd/SplitImageBody/End tells when they are enough.
--
-- In `create_sandbox`, the path and digest of the supervisor, the alias of the image and the DHCP client
-- are parameters, as are the parser of URLs, the resolver of names and the tar crate.
--
-- The file system under an image (Image/Init), the files of an instance (Lxd/Files), the host of the
-- collector (Gc/Host) and the file that an upload streams (Lxd/SplitImageBody) are records of functions
-- on a state of their own; the transport (Lxd/Http), and the PEM files and rustls (Lxd/Trust), are
-- records of plain functions. A function of client.rs that may panic has an outcome for it, and a
-- poll of an upload's body another.
--
-- Not modelled: the locks around the provisioning of volumes; the handlers of grpc.rs for creation,
-- capabilities and watching; in image.rs, the tools that `import` runs before the upload, the
-- credentials and the pseudo file; the sockets and the WebSocket of crates/lxd-client; logging; the
-- start-up of the process (main.rs); generated protocol code (crates/computev1).
pub mod Common
pub mod Egress
pub mod Lxd
pub mod Errors
pub mod Config
pub mod Mapping
pub mod Driver
pub mod Gc
pub mod Image
pub mod DhcpClient
pub mod Grpc
pub mod Watcher
pub mod Tests
