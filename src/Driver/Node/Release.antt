-- ===== src/Driver/Node/Release.antt =====
-- The requests of the node service that take a volume down or resize it, and
-- pkg/driver/unpublish_quarantine.go. The mount roots are recorded on Windows only.
use forks_seaweedfs_csi_driv.Common.{
  String, ◌<>◌, Bool, true, false, ◌||◌, Option, none, some, List, [], ◌∷◌, ◌==◌, if◌then◌else◌,
}
use forks_seaweedfs_csi_driv.Common.Text.{has_prefix, trim_prefix, split}
use forks_seaweedfs_csi_driv.Common.Decimal.{ℤ}
use forks_seaweedfs_csi_driv.Common.Failure.{Failure, Result, ok, err, status_error, internal}
use forks_seaweedfs_csi_driv.Driver.Host.{
  Host, Driver, Volume, M, cleanup_mount_point, has_entries, mkdir_all, rename, load, store, delete,
  note, dropped_mutex, consult, attempt, try_ask,
}
use forks_seaweedfs_csi_driv.Driver.Host.Monad.{
  pure, raise, or_raise, catch, map_error, ◌>>=◌, ◌>>◌,
}
use forks_seaweedfs_csi_driv.Driver.MountUtil.{is_path_mounted, reset_statfs_probe}
use forks_seaweedfs_csi_driv.Driver.Volume.{
  join_path, remove_publish_path, quota, unpublish, unstage, cleanup_volume_resources,
}
use forks_seaweedfs_csi_driv.Driver.Node.{is_set, require}

-- The path of a target below the kubelet's directory of pods, for clean absolute paths.
unfoldable pub pod_relative : Driver → String → Option String
pod_relative d target =
    if d.kubelet_root_dir == ""
    then none
    else if d.kubelet_root_mount == ""
    then none
    else (let base = join_path (join_path d.kubelet_root_dir "pods") "" in
        if has_prefix target base
        then (let rel = trim_prefix target base in
            if (rel == "") || has_prefix rel ".." then none else some rel)
        else none)

-- `<uid>/volumes/kubernetes.io~csi/<pvc>/mount` names the pod and the volume.
quarantine_name : List String → String
quarantine_name [] = ""
quarantine_name (uid ∷ a ∷ b ∷ pvc ∷ rest) = uid <> ("-" <> pvc)
quarantine_name (uid ∷ rest) = uid

internal_status : Failure → Failure
internal_status e = status_error internal e.text

-- An unmounted target of which the check says so.
is_unmounted : Result Bool → Bool
is_unmounted (ok false) = true
is_unmounted _ = false

is_filled : Result Bool → Bool
is_filled (ok filled) = filled
is_filled (err e) = false

module _ (h : Host) (d : Driver) where
  unfoldable pub move_aside : String → Option Failure → M Bool
  unfolding quarantine_name
  move_aside rel (some e) = pure false
  move_aside rel none = do
    now ← consult h.clock
    let name = now <> ("-" <> quarantine_name (split b'/' rel))
    moved ← attempt h (
        rename (join_path (join_path d.kubelet_root_mount "pods") rel)
          (join_path (join_path d.kubelet_root_mount "seaweedfs-quarantine") name))
    pure (elim moved [ none ↦ true | some e ↦ false ])

  unfoldable pub move_filled : String → Bool → M Bool
  unfolding move_aside
  move_filled rel false = pure false
  move_filled rel true = do
    made ← attempt h (mkdir_all (join_path d.kubelet_root_mount "seaweedfs-quarantine"))
    move_aside rel made

  unfoldable pub move_unmounted : String → String → Bool → M Bool
  unfolding move_filled is_filled
  move_unmounted target rel false = pure false
  move_unmounted target rel true = do
    entries ← try_ask h (has_entries target)
    move_filled rel (is_filled entries)

  unfoldable pub quarantine_below : String → Option String → M Bool
  unfolding move_unmounted is_unmounted
  quarantine_below target none = pure false
  quarantine_below target (some rel) = do
    mounted ← is_path_mounted h target
    move_unmounted target rel (is_unmounted mounted)

  -- quarantineStaleTarget, of a target that this process sees at its host path: whether it was moved.
  unfoldable pub quarantine_stale_target : String → M Bool
  unfolding quarantine_below
  quarantine_stale_target target = quarantine_below target (pod_relative d target)

  unfoldable pub after_quarantine : String → Failure → Bool → M (Unit {0})
  after_quarantine target e true = reset_statfs_probe target
  after_quarantine target e false = raise e

  unfoldable pub quarantine_failed : String → Result (Unit {0}) → M (Unit {0})
  unfolding after_quarantine
  quarantine_failed target (ok u) = pure tt
  quarantine_failed target (err e) = do
    moved ← quarantine_stale_target target
    after_quarantine target e moved

  -- unpublishTarget
  unfoldable pub unpublish_target : String → M (Unit {0}) → M (Unit {0})
  unfolding quarantine_failed
  unpublish_target target cleanup = do r ← catch cleanup; quarantine_failed target r

  -- The cleanup function that NodeUnpublishVolume passes for a volume it does not know.
  unfoldable pub cleanup_target : String → M (Unit {0})
  cleanup_target target = do r ← attempt h (cleanup_mount_point target); or_raise r (pure tt)

  unfoldable pub forget_if_cleaned : String → Result (Unit {0}) → M (Unit {0})
  forget_if_cleaned target (ok u) = reset_statfs_probe target
  forget_if_cleaned target (err e) = pure tt

  unfoldable pub unpublish_known : String → String → Option Volume → M (Unit {0})
  unfolding cleanup_target forget_if_cleaned internal_status
  unpublish_known id target none = do
    r ← catch (unpublish_target target (cleanup_target target))
    forget_if_cleaned target r
  unpublish_known id target (some v) = do
    store id (remove_publish_path target v)
    map_error internal_status (unpublish_target target (unpublish h d target))

  -- NodeUnpublishVolume
  unfoldable pub node_unpublish_volume : String → String → M (Unit {0})
  unfolding unpublish_known
  node_unpublish_volume id target = do
    require (is_set id) "Volume ID missing in request"
    require (is_set target) "Target path missing in request"
    known ← load id
    unpublish_known id target known

  unfoldable pub unstage_known : String → String → Option Volume → M (Unit {0})
  unfolding cleanup_target forget_if_cleaned internal_status
  unstage_known id path none = do
    r ← catch (cleanup_target path)
    forget_if_cleaned path r
    cleanup_volume_resources h d id
  unstage_known id path (some v) = do map_error internal_status (unstage h d path v); delete id

  -- NodeUnstageVolume
  unfoldable pub node_unstage_volume : String → String → M (Unit {0})
  unfolding unstage_known
  node_unstage_volume id path = do
    require (is_set id) "Volume ID missing in request"
    require (is_set path) "Target path missing in request"
    known ← load id
    unstage_known id path known
    note (dropped_mutex id)

  unfoldable pub expand_known : String → ℤ → Option Volume → M (Unit {0})
  expand_known id size none = pure tt
  expand_known id size (some v) = quota h d v.volume_id size

  -- NodeExpandVolume
  unfoldable pub node_expand_volume : String → String → ℤ → M (Unit {0})
  unfolding expand_known
  node_expand_volume id path size = do
    require (is_set id) "Volume ID missing in request"
    require (is_set path) "Volume path missing in request"
    known ← load id
    expand_known id size known
