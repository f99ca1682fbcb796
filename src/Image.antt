-- ===== src/Image.antt =====
-- crates/openshell-driver-lxd/src/image.rs: the cache of images, and what an import does with an
-- unpacked image before LXD gets it.
pub mod Reference
pub mod Manifest
pub mod Cache
pub mod Owner
pub mod Rootfs
pub mod Supervisor
pub mod Init
pub mod Import
