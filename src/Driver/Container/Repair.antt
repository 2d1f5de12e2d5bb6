-- ===== src/Driver/Container/Repair.antt =====
-- repairStaleContainerMounts and remountInContainers of pkg/driver/container_remount_linux.go.
use forks_seaweedfs_csi_driv.Common.{
  ℕ, ◌+◌, String, ◌<>◌, Bool, true, false, ◌&&◌, ◌||◌, not, List, [], ◌∷◌, ◌==◌, if◌then◌else◌,
}
use forks_seaweedfs_csi_driv.Common.Decimal.{ℤ, format_int}
use forks_seaweedfs_csi_driv.Common.Failure.{Result, ok, err}
use forks_seaweedfs_csi_driv.Driver.Host.Monad.{pure, catch, ◌>>=◌, ◌>>◌}
use forks_seaweedfs_csi_driv.Driver.Container.Entries.{
  Entry, parse_mount_info_reader, is_fuse_fs, same_fuse_filesystem, mount_entry_at, read_only,
  find_container_mounts_by_device,
}
use forks_seaweedfs_csi_driv.Driver.Container.Processes.{
  ProcFs, extract_pod_uid, find_container_pids_for_pod,
}
use forks_seaweedfs_csi_driv.Driver.Container.Machine.{
  Statfs, listed, probed, forgot_probe, History, Kernel, M, note, is_stale_mount,
}
use forks_seaweedfs_csi_driv.Driver.Container.Remount.{remount_via_setns}

-- parseMountInfo: a table that could not be opened has no entries.
unfoldable pub parse_mount_info : ProcFs → ℤ → Result (List Entry)
parse_mount_info p pid = elim (p.mount_table pid) [
  | ok (lines, failed) ↦ parse_mount_info_reader lines failed
  | err e ↦ err e
]

abbrev pub record_table : ℤ → Result (List Entry) → History → History
record_table pid (ok entries) past = listed pid entries ∷ past
record_table pid (err e) past = past

-- The path by which the driver sees a container's mount.
unfoldable pub check_path : ℤ → String → String
check_path pid mountpoint = "/proc/" <> (format_int pid <> ("/root" <> mountpoint))

abbrev pub or_empty {ℓ} : {A : Type ℓ} → Result (List A) → List A
or_empty (ok xs) = xs
or_empty (err e) = []

module _ (k : Kernel) where
  unfoldable pub read_table : ℤ → M (Result (List Entry))
  unfolding parse_mount_info
  read_table pid past =
      let r = parse_mount_info (k.proc past) pid in (ok r, record_table pid r past)

  unfoldable pub probe : String → M Statfs
  probe path past = let r = k.statfs past path in (ok r, probed path r ∷ past)

  unfoldable pub pids_of : String → M (Result (List ℤ))
  pids_of pod_uid past = (ok (find_container_pids_for_pod (k.proc past) pod_uid), past)

  -- The mount is another one of the staged filesystem.
  unfoldable pub is_other_mount : Entry → Entry → Bool
  is_other_mount staging e =
      is_fuse_fs e.fstype
      && (not (e.device == staging.device) && same_fuse_filesystem e.source staging.source)

  unfoldable pub count_repaired : String → Result (Unit {0}) → M ℕ
  count_repaired path (err e) = pure 0
  count_repaired path (ok u) = do note (forgot_probe path); pure 1

  unfoldable pub replace_dead : String → ℤ → Entry → Bool → M ℕ
  unfolding count_repaired
  replace_dead staging_path pid e false = pure 0
  replace_dead staging_path pid e true = do
    r ← catch (remount_via_setns k pid e.mountpoint staging_path e.root (read_only e))
    count_repaired (check_path pid e.mountpoint) r

  unfoldable pub repair_entry : String → ℤ → Entry → Bool → M ℕ
  unfolding replace_dead
  repair_entry staging_path pid e false = pure 0
  repair_entry staging_path pid e true = do
    answer ← probe (check_path pid e.mountpoint)
    replace_dead staging_path pid e (is_stale_mount answer)

  unfoldable pub repair_entries : Entry → String → ℤ → List Entry → M ℕ
  unfolding repair_entry is_other_mount
  repair_entries staging staging_path pid [] = pure 0
  repair_entries staging staging_path pid (e ∷ entries) = do
    n ← repair_entry staging_path pid e (is_other_mount staging e)
    m ← repair_entries staging staging_path pid entries
    pure (n + m)

  unfoldable pub repair_pid : Entry → String → ℤ → M ℕ
  unfolding repair_entries read_table
  repair_pid staging staging_path pid = do
    table ← read_table pid
    repair_entries staging staging_path pid (or_empty table)

  unfoldable pub repair_pids : Entry → String → List ℤ → M ℕ
  unfolding repair_pid
  repair_pids staging staging_path [] = pure 0
  repair_pids staging staging_path (pid ∷ pids) = do
    n ← repair_pid staging staging_path pid
    m ← repair_pids staging staging_path pids
    pure (n + m)

  unfoldable pub repair_from : String → String → Result Entry → M ℕ
  unfolding repair_pids pids_of
  repair_from staging_path pod_uid (err e) = pure 0
  repair_from staging_path pod_uid (ok staging) =
      if not (is_fuse_fs staging.fstype)
      then pure 0
      else do pids ← pids_of pod_uid; repair_pids staging staging_path (or_empty pids)

  unfoldable pub entry_in : String → Result (List Entry) → Result Entry
  entry_in path (ok entries) = mount_entry_at entries path
  entry_in path (err e) = err e

  unfoldable pub repair_pod : String → String → M ℕ
  unfolding repair_from read_table entry_in
  repair_pod staging_path pod_uid = do
    table ← read_table k.self
    repair_from staging_path pod_uid (entry_in staging_path table)

  -- repairStaleContainerMounts
  unfoldable pub repair_stale_container_mounts : String → String → M ℕ
  unfolding repair_pod
  repair_stale_container_mounts publish_path staging_path =
      let pod_uid = extract_pod_uid publish_path in
      if pod_uid == "" then pure 0 else repair_pod staging_path pod_uid

  unfoldable pub remount_entries : String → Bool → ℤ → List Entry → M (Unit {0})
  remount_entries staging_path ro pid [] = pure tt
  remount_entries staging_path ro pid (e ∷ entries) = do
    r ← catch (remount_via_setns k pid e.mountpoint staging_path e.root (ro || read_only e))
    remount_entries staging_path ro pid entries

  unfoldable pub remount_pids : String → String → Bool → List ℤ → M (Unit {0})
  unfolding remount_entries read_table
  remount_pids staging_path old_device ro [] = pure tt
  remount_pids staging_path old_device ro (pid ∷ pids) = do
    table ← read_table pid
    remount_entries staging_path ro pid
        (find_container_mounts_by_device (or_empty table) old_device)
    remount_pids staging_path old_device ro pids

  unfoldable pub remount_pod : String → String → Bool → String → M (Unit {0})
  unfolding remount_pids pids_of
  remount_pod staging_path old_device ro pod_uid = do
    pids ← pids_of pod_uid
    remount_pids staging_path old_device ro (or_empty pids)

  -- remountInContainers
  unfoldable pub remount_in_containers : String → String → String → Bool → M (Unit {0})
  unfolding remount_pod
  remount_in_containers publish_path staging_path old_device ro =
      let pod_uid = extract_pod_uid publish_path in
      if pod_uid == "" then pure tt else remount_pod staging_path old_device ro pod_uid
