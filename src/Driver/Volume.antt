-- ===== src/Driver/Volume.antt =====
-- A volume on the node: pkg/driver/volume.go, and its files in utils.go.
use forks_seaweedfs_csi_driv.Common.{
  ℕ, ◌+◌, ◌%◌, ◌^◌, String, ◌<>◌, Bool, true, false, Option, none, some, [], ◌==◌, ltb, leb, eqb,
  if◌then◌else◌,
}
use forks_seaweedfs_csi_driv.Common.Dict.{Dict, insert, erase, has_key}
use forks_seaweedfs_csi_driv.Common.Decimal.{ℤ, pos}
use forks_seaweedfs_csi_driv.Common.Failure.{Failure}
use forks_seaweedfs_csi_driv.Driver.Host.{
  Host, Driver, Volume, M, unmount, cleanup_mount_point, remove_all, remove_socket, bind,
  service_mount, service_unmount, configure, attempt,
}
use forks_seaweedfs_csi_driv.Driver.Host.Monad.{pure, raise, or_raise, ◌>>=◌, ◌>>◌}
use forks_seaweedfs_csi_driv.Driver.MountUtil.{check_mount, reset_statfs_probe, remove_or_raise}

-- filepath.Join of a clean directory and a name
abbrev pub join_path : String → String → String
join_path dir name = dir <> ("/" <> name)

-- GetCacheDir
unfoldable pub get_cache_dir : Driver → String → String
get_cache_dir d id =
    join_path (if d.cache_dir == "" then d.temp_dir else d.cache_dir) (d.volume_hash id)

-- NewVolume
unfoldable pub new_volume : String → Volume
new_volume id = record {
  volume_id = id;
  staged_path = "";
  unmounter = false;
  health_fail_count = 0;
  unhealthy_streak = 0;
  abnormal = none;
  publish_paths = [];
  vol_context = none;
  read_only = false;
}

-- One more, in an `int32`.
abbrev pub int32_next : ℕ → ℕ
int32_next n = (n + 1) % 2 ^ 32

-- `n < k` for an `int32` bit pattern and a small constant.
abbrev pub int32_below : ℕ → ℕ → Bool
int32_below n k = if leb (2 ^ 31) n then true else ltb n k

-- Volume.AddPublishPath, RemovePublishPath, HasPublishPath
unfoldable pub add_publish_path : String → Bool → Volume → Volume
add_publish_path path ro v = record v { publish_paths = insert path ro v.publish_paths }

unfoldable pub remove_publish_path : String → Volume → Volume
remove_publish_path path v = record v { publish_paths = erase path v.publish_paths }

unfoldable pub has_publish_path : String → Volume → Bool
has_publish_path path v = has_key path v.publish_paths

-- Volume.noteUnhealthy, noteHealthy, setAbnormal
unfoldable pub note_unhealthy : Volume → Volume
note_unhealthy v = record v { unhealthy_streak = int32_next v.unhealthy_streak }

unfoldable pub note_healthy : Volume → Volume
note_healthy v = record v { unhealthy_streak = 0; abnormal = none }

unfoldable pub set_abnormal : String → Volume → Volume
set_abnormal message v = record v { abnormal = some message }

module _ (h : Host) (d : Driver) where
  -- CleanupVolumeResources. Its check that the cache directory lies under its base always passes: the
  -- directory is the base joined with a hash. Failures are only logged.
  unfoldable pub cleanup_volume_resources : String → M (Unit {0})
  cleanup_volume_resources id = do
    r ← attempt h (remove_all (get_cache_dir d id))
    s ← attempt h (remove_socket id)
    pure tt

  -- What Volume.Stage does with a path that is mounted already: a failed unmount is ignored.
  unfoldable pub unmount_before : String → Bool → M (Unit {0})
  unmount_before path false = pure tt
  unmount_before path true = do
    r ← attempt h (unmount path)
    elim r [ none ↦ reset_statfs_probe path | some e ↦ pure tt ]

  -- Volume.Stage: the volume with its staged path and its unmounter.
  unfoldable pub stage : String → Dict String → Bool → Volume → M Volume
  unfolding unmount_before
  stage path context ro v = do
    mounted ← check_mount h path
    unmount_before path mounted
    r ← attempt h (service_mount v.volume_id path context ro)
    or_raise r (pure (record v { staged_path = path; unmounter = true }))

  unfoldable pub bind_unless : Bool → String → String → Bool → M (Unit {0})
  bind_unless true staging target ro = pure tt
  bind_unless false staging target ro = do
    r ← attempt h (bind staging target ro)
    or_raise r (pure tt)

  -- Volume.Publish: a target that is mounted already counts as published.
  unfoldable pub publish : String → String → Bool → M (Unit {0})
  unfolding bind_unless
  publish staging target ro = do
    mounted ← check_mount h target
    bind_unless mounted staging target ro

  -- A quota of one byte stands for none.
  quota_bytes : ℤ → ℤ
  quota_bytes (pos n) = if eqb n 1 then pos 0 else pos n
  quota_bytes n = n

  -- Volume.Quota
  unfoldable pub quota : String → ℤ → M (Unit {0})
  unfolding quota_bytes
  quota id size = do r ← attempt h (configure id (quota_bytes size)); or_raise r (pure tt)

  -- Volume.Unpublish
  unfoldable pub unpublish : String → M (Unit {0})
  unpublish target = do
    r ← attempt h (cleanup_mount_point target)
    or_raise r (pure tt)
    reset_statfs_probe target

  -- The removal of the staging directory in Volume.Unstage, once the mount service has stopped the
  -- weed mount.
  unfoldable pub remove_unstaged : String → Option Failure → M (Unit {0})
  remove_unstaged path (some e) = raise e
  remove_unstaged path none = remove_or_raise h path

  unfoldable pub take_down : Volume → String → Bool → M (Unit {0})
  unfolding remove_unstaged
  take_down v path false = do r ← attempt h (cleanup_mount_point path); or_raise r (pure tt)
  take_down v path true = do r ← attempt h (service_unmount v.volume_id); remove_unstaged path r

  -- Volume.Unstage
  unfoldable pub unstage : String → Volume → M (Unit {0})
  unfolding take_down cleanup_volume_resources
  unstage path v = do
    take_down v path v.unmounter
    reset_statfs_probe path
    cleanup_volume_resources v.volume_id
