-- ===== src/Container.antt =====
-- src/linyaps_box/container.cpp and container.h: creating and running a container.
-- Assertions are those of a release build: they check nothing. What only logs is left out.
pub mod Defs
pub mod Sync
pub mod Waiting
pub mod Hooks
pub mod Mounts
pub mod Mounter
pub mod Descriptors
pub mod CloneFlag
pub mod Process
pub mod UserNamespace
pub mod Lifecycle
pub mod Ordinary
pub mod Handshake
pub mod Order
pub mod OnDescriptors
pub mod MountTargets
pub mod ReadonlyTmpfs
pub mod ExitCode
pub mod Reported
pub mod Retries
pub mod Resources
mod Tests
