-- ===== src/Mount.antt =====
-- The mount service: pkg/mountmanager.
pub mod Flags
pub mod Output
pub mod Manager
mod Tests
