-- ===== src/Driver/Container/Remount.antt =====
-- remountViaSetns of pkg/driver/container_remount_linux.go.
use forks_seaweedfs_csi_driv.Common.{
  String, ◌<>◌, Bool, true, false, ◌||◌, none, ◌∷◌, ◌==◌, if◌then◌else◌,
}
use forks_seaweedfs_csi_driv.Common.Decimal.{ℤ, format_int}
use forks_seaweedfs_csi_driv.Common.Failure.{Failure}
use forks_seaweedfs_csi_driv.Common.Paths.{join_clean}
use forks_seaweedfs_csi_driv.Driver.Host.Monad.{pure, or_raise, map_error, finally, ◌>>=◌, ◌>>◌}
use forks_seaweedfs_csi_driv.Driver.Container.Machine.{
  Call, lock_thread, unlock_thread, unshare_fs, open_tree, open_own_namespace, open_namespace,
  enter, restore, close_tree, close_own_namespace, close_namespace, detach, move, set_read_only,
  did, History, Kernel, M, note, attempt,
}

-- The directory that the fresh bind comes from.
unfoldable pub bind_source : String → String → String
bind_source staging_path sub_path =
    if sub_path == "" || sub_path == "/" then staging_path else join_clean staging_path sub_path

abbrev pub within : String → Failure → Failure
within text e = record e { text = text <> (": " <> e.text) }

module _ (k : Kernel) where
  -- A call whose error ends the remount.
  unfoldable pub call_or_raise : Call → String → M (Unit {0})
  call_or_raise c text = do r ← attempt k c; map_error (within text) (or_raise r (pure tt))

  -- A deferred call; its error is dropped.
  unfoldable pub call_after : Call → History → History
  call_after c past = did c (k.act past c) ∷ past

  unfoldable pub set_read_only_if : Bool → String → M (Unit {0})
  set_read_only_if false path = pure tt
  set_read_only_if true path = do r ← attempt k (set_read_only path); pure tt

  module _ (pid : ℤ) (mount_path staging_path sub_path : String) (ro : Bool) where
    pid_text : String
    pid_text = format_int pid

    -- What is done in the container's namespace.
    unfoldable pub replace_stale : M (Unit {0})
    unfolding set_read_only_if call_or_raise pid_text
    replace_stale = do
      r ← attempt k (detach mount_path)
      call_or_raise (move mount_path) (
          "move_mount detached source -> "
          <> (mount_path
              <> (" in container PID "
                  <> (pid_text
                      <> (" (source path was " <> (bind_source staging_path sub_path <> ")"))))))
      set_read_only_if ro mount_path

    unfoldable pub within_namespace : M (Unit {0})
    unfolding replace_stale call_or_raise pid_text
    within_namespace = do
      call_or_raise (enter pid) ("setns to container PID " <> pid_text)
      finally replace_stale (call_after restore)

    unfoldable pub with_own_namespace : M (Unit {0})
    unfolding within_namespace call_or_raise pid_text
    with_own_namespace = do
      call_or_raise (open_namespace pid)
          ("open container mount ns /proc/" <> (pid_text <> "/ns/mnt"))
      finally within_namespace (call_after close_namespace)

    unfoldable pub with_tree : M (Unit {0})
    unfolding with_own_namespace call_or_raise
    with_tree = do
      call_or_raise open_own_namespace "open current mount ns"
      finally with_own_namespace (call_after close_own_namespace)

    unfoldable pub on_thread : M (Unit {0})
    unfolding with_tree call_or_raise bind_source
    on_thread = do
      call_or_raise unshare_fs "unshare CLONE_FS"
      call_or_raise (open_tree (bind_source staging_path sub_path))
          ("open_tree " <> bind_source staging_path sub_path)
      finally with_tree (call_after close_tree)

    -- remountViaSetns
    unfoldable pub remount_via_setns : M (Unit {0})
    unfolding on_thread
    remount_via_setns = do note (did lock_thread none); finally on_thread (call_after unlock_thread)
