-- ===== src/Driver/MountUtil.antt =====
-- The mount utilities of the node plugin on Linux: pkg/driver/mount_util_linux.go and mount_util.go.
-- A helper named `…_of` takes the answer of the call before it.
pub mod Removal
use forks_seaweedfs_csi_driv.Common.{
  ℕ, String, ◌<>◌, Bool, true, false, not, Option, none, some, ◌≡◌, if◌then◌else◌,
}
use forks_seaweedfs_csi_driv.Common.Failure.{
  Failure, Result, ok, err, failure, is_not_exist, is_corrupted, is_not_mounted, Kind, not_exist,
}
use forks_seaweedfs_csi_driv.Driver.Host.{
  Host, M, Node, Probe, answered, timed_out, Event, forgot_probe, Action, unmount, lazy_unmount,
  cleanup_mount_point, remove, mkdir_all, bind, is_dir, present, is_mount_point,
  is_likely_not_mount_point, note, attempt, try_ask, probe_statfs, consult,
}
use forks_seaweedfs_csi_driv.Driver.Host.Monad.{pure, raise, or_raise, catch, ◌>>=◌, ◌>>◌}

pub data Health : Type 0 where
  healthy dead slow : Health

-- resetStatfsProbe
unfoldable pub reset_statfs_probe : String → M (Unit {0})
reset_statfs_probe path = note (forgot_probe path)

-- The text of an error that may be nil, as `%v` prints it.
abbrev pub text_of : Option Failure → String
text_of none = "<nil>"
text_of (some e) = e.text

module _ (h : Host) where
  -- The four looks of stagingPathHealth at the path.
  health_of_statfs : Probe → Health
  health_of_statfs timed_out = slow
  health_of_statfs (answered none) = healthy
  health_of_statfs (answered (some e)) = if is_corrupted e then dead else healthy

  unfoldable pub health_of_mount : String → Result Bool → M Health
  unfolding health_of_statfs
  health_of_mount path (err e) = pure dead
  health_of_mount path (ok false) = pure dead
  health_of_mount path (ok true) = do r ← probe_statfs h path; pure (health_of_statfs r)

  unfoldable pub health_of_stat : String → Result Bool → M Health
  unfolding health_of_mount
  health_of_stat path (err e) = pure dead
  health_of_stat path (ok false) = pure dead
  health_of_stat path (ok true) = do r ← try_ask h (is_mount_point path); health_of_mount path r

  -- stagingPathHealth
  unfoldable pub staging_path_health : String → M Health
  unfolding health_of_stat
  staging_path_health path = do r ← try_ask h (is_dir path); health_of_stat path r

  -- isStagingPathHealthy
  unfoldable pub is_staging_path_healthy : String → M Bool
  is_staging_path_healthy path = do
    r ← staging_path_health path
    pure (elim r [ healthy ↦ true | _ ↦ false ])

  -- os.Remove(path), where a path that is gone already is no error.
  remove_of : Option Failure → Option Failure
  remove_of none = none
  remove_of (some e) = if is_not_exist e then none else some e

  unfoldable pub remove_if_exists : String → M (Option Failure)
  unfolding remove_of
  remove_if_exists path = do r ← attempt h (remove path); pure (remove_of r)

  unfoldable pub remove_or_raise : String → M (Unit {0})
  unfolding remove_if_exists
  remove_or_raise path = do r ← remove_if_exists path; or_raise r (pure tt)

  -- The fallback of cleanupCorruptedStagingPath: a lazy unmount, then the removal of the directory.
  unfoldable pub remove_detached : String → Failure → Option Failure → M (Unit {0})
  unfolding remove_or_raise
  remove_detached path e none = remove_or_raise path
  remove_detached path e (some l) = raise (
      failure (
        "cleanup corrupted mount "
        <> (path <> (": cleanup " <> (e.text <> (", lazy unmount " <> l.text))))))

  unfoldable pub detach_corrupted : String → Option Failure → M (Unit {0})
  unfolding remove_detached
  detach_corrupted path none = pure tt
  detach_corrupted path (some e) = do
    lazy ← attempt h (lazy_unmount path)
    remove_detached path e lazy

  -- cleanupCorruptedStagingPath
  unfoldable pub cleanup_corrupted_staging_path : String → M (Unit {0})
  unfolding detach_corrupted
  cleanup_corrupted_staging_path path = do
    r ← attempt h (cleanup_mount_point path)
    detach_corrupted path r
    reset_statfs_probe path

  -- The last steps of cleanupStaleStagingPath: what IsMountPoint says after the unmount.
  unfoldable pub remove_unmounted : String → Option Failure → Result Bool → M (Unit {0})
  unfolding cleanup_corrupted_staging_path remove_or_raise
  remove_unmounted path unmount_err (err e) =
      if is_corrupted e
      then cleanup_corrupted_staging_path path
      else raise (failure ("check mount point " <> (path <> (" after unmount: " <> e.text))))
  remove_unmounted path unmount_err (ok true) = raise (
      failure (
        "refuse to remove staging path "
        <> (path
            <> (": still a mount point after unmount (unmount err: "
                <> (text_of unmount_err <> "); not deleting through a live FUSE")))))
  remove_unmounted path unmount_err (ok false) = do remove_or_raise path; reset_statfs_probe path

  -- What Lstat says after the unmount.
  unfoldable pub cleanup_present : String → Option Failure → Result Bool → M (Unit {0})
  unfolding cleanup_corrupted_staging_path remove_unmounted
  cleanup_present path unmount_err (err e) =
      if is_not_exist e
      then reset_statfs_probe path
      else if is_corrupted e
      then cleanup_corrupted_staging_path path
      else raise e
  cleanup_present path unmount_err (ok found) = do
    r ← try_ask h (is_mount_point path)
    remove_unmounted path unmount_err r

  -- cleanupStaleStagingPath
  unfoldable pub cleanup_stale_staging_path : String → M (Unit {0})
  unfolding cleanup_present
  cleanup_stale_staging_path path = do
    unmount_err ← attempt h (unmount path)
    found ← try_ask h (present path)
    cleanup_present path unmount_err found

  -- What IsMountPoint answers in checkMount. After the unmount of a corrupted mount an error of
  -- the second look is dropped, and the Boolean beside it is the answer.
  unfoldable pub check_mount_of : String → Result Bool → M Bool
  check_mount_of path (ok mounted) = pure mounted
  check_mount_of path (err e) =
      if is_not_exist e
      then (do r ← attempt h (mkdir_all path); or_raise r (pure false))
      else if is_corrupted e
      then (do
        r ← attempt h (unmount path)
        or_raise r (pure tt)
        reset_statfs_probe path
        again ← try_ask h (is_mount_point path)
        beside ← consult (λ past. h.beside_error past (is_mount_point path))
        pure (elim again [ ok mounted ↦ mounted | err e ↦ beside ]))
      else raise e

  -- checkMount
  unfoldable pub check_mount : String → M Bool
  unfolding check_mount_of
  check_mount path = do r ← try_ask h (is_mount_point path); check_mount_of path r

  -- detachDeadMountPoint: EINVAL and ENOENT say that nothing is mounted there.
  unfoldable pub detach_dead_mount_point : String → M (Option Failure)
  detach_dead_mount_point path = do
    r ← attempt h (lazy_unmount path)
    pure (elim r [ none ↦ none | some e ↦ if is_not_mounted e then none else some e ])

  -- isPathMounted
  unfoldable pub is_path_mounted : String → M (Result Bool)
  is_path_mounted path = do
    r ← try_ask h (is_likely_not_mount_point path)
    pure (elim r [ err e ↦ err e | ok not_mounted ↦ ok (not not_mounted) ])
