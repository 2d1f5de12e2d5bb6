-- ===== src/Driver/Container/Warrants.antt =====
-- What warrants that repairStaleContainerMounts of pkg/driver/container_remount_linux.go replaces a
-- mount inside a container.
use forks_seaweedfs_csi_driv.Common.{
  ℕ, String, ◌≡◌, ◌≢◌, refl, true, ◌⊎◌, inr, List, Among, eq_iff, arith,
}
use forks_seaweedfs_csi_driv.Common.Decimal.{ℤ}
use forks_seaweedfs_csi_driv.Common.Failure.{ok}
use forks_seaweedfs_csi_driv.Driver.Container.Entries.{
  Entry, is_fuse_fs, same_fuse_filesystem, mount_entry_at,
}
use forks_seaweedfs_csi_driv.Driver.Container.Machine.{
  Statfs, errno, clean, other_error, unanswered, listed, probed, History, Kernel, is_stale_mount,
}
use forks_seaweedfs_csi_driv.Driver.Container.Repair.{check_path, is_other_mount}
use forks_seaweedfs_csi_driv.Driver.Container.Frames.{Grows}

-- Why a mount of a process may be replaced by the mount staged at `staging_path`, which the driver,
-- process `self`, found on top there: it is another FUSE mount of the same file system, and a
-- probe of it found the connection gone (ENOTCONN, ECONNABORTED).
pub record Warrant (self : ℤ) (staging_path : String) (pid : ℤ) (path : String) (past : History)
    : Type 0 where
  pub own_table : List Entry
  pub own_read : Among (listed self own_table) past
  pub staging : Entry
  pub on_top : mount_entry_at own_table staging_path ≡ ok staging
  pub table : List Entry
  pub read : Among (listed pid table) past
  pub entry : Entry
  pub entry_listed : Among entry table
  pub at_path : entry.mountpoint ≡ path
  pub is_fuse : is_fuse_fs entry.fstype ≡ true
  pub other_device : entry.device ≢ staging.device
  pub same_source : same_fuse_filesystem entry.source staging.source ≡ true
  pub number : ℕ
  pub probed_dead : Among (probed (check_path pid path) (errno number)) past
  pub dead : (number ≡ 107) ⊎ (number ≡ 103)

pub Warrant-Grows :
    (self : ℤ) (staging_path : String) (pid : ℤ) (path : String)
    → Grows (Warrant self staging_path pid path)
Warrant-Grows self staging_path pid path e past w = record {
  own_table = w.own_table;
  own_read = inr w.own_read;
  staging = w.staging;
  on_top = w.on_top;
  table = w.table;
  read = inr w.read;
  entry = w.entry;
  entry_listed = w.entry_listed;
  at_path = w.at_path;
  is_fuse = w.is_fuse;
  other_device = w.other_device;
  same_source = w.same_source;
  number = w.number;
  probed_dead = inr w.probed_dead;
  dead = w.dead;
}

pub is_stale-inv :
    (r : Statfs) → is_stale_mount r ≡ true → (n : ℕ) × (r ≡ errno n) × ((n ≡ 107) ⊎ (n ≡ 103))
unfolding is_stale_mount
is_stale-inv (errno n) h = (n, refl, ground arith)
is_stale-inv clean h = cc
is_stale-inv other_error h = cc
is_stale-inv unanswered h = cc

pub is_other-inv :
    (k : Kernel) (staging e : Entry)
    → is_other_mount k staging e ≡ true
    → (is_fuse_fs e.fstype ≡ true)
      × (e.device ≢ staging.device)
      × (same_fuse_filesystem e.source staging.source ≡ true)
unfolding is_other_mount
is_other-inv k staging e h =
    (ground arith, ground (arith, eq_iff e.device staging.device), ground arith)
