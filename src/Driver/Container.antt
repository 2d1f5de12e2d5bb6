-- ===== src/Driver/Container.antt =====
-- Mounts inside the containers of a pod: pkg/driver/container_remount_linux.go.
pub mod Entries
mod Escapes
pub mod RoundTrip
pub mod Processes
pub mod Machine
pub mod Remount
pub mod Repair
mod Frames
pub mod Guarded
pub mod Warrants
pub mod Warranted
pub mod Devices
pub mod Membership
pub mod Pods
mod Tests
pub mod Held
