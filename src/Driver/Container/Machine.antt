-- ===== src/Driver/Container/Machine.antt =====
-- What pkg/driver/container_remount_linux.go asks of the kernel, and a history of it. The kernel's
-- answers are a function of the history.
use forks_seaweedfs_csi_driv.Common.{ℕ, String, Bool, false, ◌||◌, Option, List, ◌∷◌, eqb}
use forks_seaweedfs_csi_driv.Common.Decimal.{ℤ}
use forks_seaweedfs_csi_driv.Common.Failure.{Failure, ok}
use forks_seaweedfs_csi_driv.Driver.Host.Monad.{Exec}
use forks_seaweedfs_csi_driv.Driver.Container.Entries.{Entry}
use forks_seaweedfs_csi_driv.Driver.Container.Processes.{ProcFs}

-- `enter` and `restore` are the two calls of setns; the paths of the last three are those that the
-- thread's mount namespace gives them.
pub data Call : Type 0 where
  lock_thread unlock_thread unshare_fs : Call
  open_tree : String → Call
  open_own_namespace : Call
  open_namespace enter : ℤ → Call
  restore close_tree close_own_namespace close_namespace : Call
  detach move set_read_only : String → Call

-- The answer to a statfs probe: no error, an errno, another error, or none within the wait.
pub data Statfs : Type 0 where
  clean : Statfs
  errno : ℕ → Statfs
  other_error : Statfs
  unanswered : Statfs

-- `listed` is a mount table that was read.
pub data Event : Type 0 where
  did : Call → Option Failure → Event
  listed : ℤ → List Entry → Event
  probed : String → Statfs → Event
  forgot_probe : String → Event

abbrev pub History : Type 0
History = List Event

-- `self` is the driver's own process.
pub record Kernel : Type 0 where
  pub self : ℤ
  pub act : History → Call → Option Failure
  pub proc : History → ProcFs
  pub statfs : History → String → Statfs

-- ENOTCONN and ECONNABORTED
unfoldable pub is_stale_mount : Statfs → Bool
is_stale_mount (errno n) = eqb n 107 || eqb n 103
is_stale_mount _ = false

abbrev pub M : Type 0 → Type 0
M A = Exec History A

unfoldable pub note : Event → M (Unit {0})
note e past = (ok tt, e ∷ past)

unfoldable pub attempt : Kernel → Call → M (Option Failure)
attempt k c past = let r = k.act past c in (ok r, did c r ∷ past)
