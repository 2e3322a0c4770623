-- ===== src/Resources.antt =====
-- internal/container/resources: what is prepared inside the root of a container.
pub mod Mounts
pub mod Users
pub mod Log
pub mod Devices
mod Examples
