-- ===== src/Utils.antt =====
-- src/linyaps_box/utils: descriptors, files and paths. The lines that only log are left out, and so
-- is the `close` that the destructor of a descriptor makes.
pub mod Paths
pub mod Descriptor
pub mod SocketPair
pub mod Retries
pub mod Files
pub mod Inspect
pub mod Log
pub mod Quoting
mod Tests
