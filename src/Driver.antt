-- ===== src/Driver.antt =====
-- The CSI driver: pkg/driver.
pub mod Host
pub mod MountUtil
pub mod Params
pub mod Volume
pub mod Node
pub mod Health
pub mod Quota
pub mod Controller
pub mod Container
pub mod Arguments
pub mod Store
pub mod Caches
pub mod Stats
pub mod Runs
pub mod Wellformed
mod Tests
