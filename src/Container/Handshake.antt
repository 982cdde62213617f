-- ===== src/Container/Handshake.antt =====
-- src/linyaps_box/container.cpp: the process of a container and the runtime, as they talk over the
-- socket pair.
pub mod Silent
pub mod Messages
pub mod Scripts
pub mod Container
pub mod Runtime
pub mod Frees
pub mod Started
pub mod Directory
