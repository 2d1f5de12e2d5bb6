-- ===== src/Driver/Node/Requests.antt =====
-- The requests of pkg/driver/nodeserver.go that stage and publish a volume.
use forks_seaweedfs_csi_driv.Common.{
  String, ◌<>◌, Bool, true, false, Option, none, some, if◌then◌else◌,
}
use forks_seaweedfs_csi_driv.Common.Text.{contains}
use forks_seaweedfs_csi_driv.Common.Failure.{
  Failure, Result, ok, err, status_error, invalid_argument, internal, permission_denied,
  is_permission, is_corrupted,
}
use forks_seaweedfs_csi_driv.Driver.Host.{Host, Driver, Volume, M, is_dir, load, store, try_ask}
use forks_seaweedfs_csi_driv.Driver.Host.Monad.{pure, map_error, on_error, ◌>>=◌, ◌>>◌}
use forks_seaweedfs_csi_driv.Driver.MountUtil.{is_staging_path_healthy, cleanup_stale_staging_path}
use forks_seaweedfs_csi_driv.Driver.Volume.{add_publish_path, publish}
use forks_seaweedfs_csi_driv.Driver.Node.{
  StageRequest, PublishRequest, is_given, is_set, require, drop_mutex, require_healthy_staging,
  rebuild_volume_from_staging, is_volume_read_only, is_publish_volume_read_only,
}
use forks_seaweedfs_csi_driv.Driver.Node.Staging.{stage_new_volume}

-- The status of a stage that failed.
unfoldable pub stage_status : Failure → Failure
stage_status e =
    if is_permission e
    then status_error permission_denied e.text
    else if contains e.text "invalid argument"
    then status_error invalid_argument e.text
    else status_error internal e.text

cleanup_status : String → Failure → Failure
cleanup_status path e =
    status_error internal ("failed to cleanup stale staging path " <> (path <> (": " <> e.text)))

restage_status : Failure → Failure
restage_status e = status_error internal ("failed to re-stage volume: " <> e.text)

internal_status : Failure → Failure
internal_status e = status_error internal e.text

-- `os.Stat` found the path, or failed as it does on a corrupted mount.
is_stale : Result Bool → Bool
is_stale (ok dir) = true
is_stale (err e) = is_corrupted e

module _ (h : Host) (d : Driver) where
  -- NodeStageVolume, for a volume that is not in the map.
  unfoldable pub adopt : StageRequest → M (Unit {0})
  adopt req =
      store req.volume_id (record (rebuild_volume_from_staging req.volume_id req.staging_path) {
        vol_context = some req.volume_context;
        read_only = is_volume_read_only req.capability;
      })

  unfoldable pub clean_if_stale : String → String → Bool → M (Unit {0})
  unfolding cleanup_status
  clean_if_stale id path false = pure tt
  clean_if_stale id path true =
      map_error (cleanup_status path) (on_error (cleanup_stale_staging_path h path) (drop_mutex id))

  unfoldable pub stage_afresh : StageRequest → M (Unit {0})
  unfolding clean_if_stale is_stale
  stage_afresh req = do
    found ← try_ask h (is_dir req.staging_path)
    clean_if_stale req.volume_id req.staging_path (is_stale found)
    v ← map_error stage_status (
        on_error
          (stage_new_volume h d req.volume_id req.staging_path req.volume_context
            (is_volume_read_only req.capability))
          (drop_mutex req.volume_id))
    store req.volume_id v

  unfoldable pub adopt_or_stage : StageRequest → Bool → M (Unit {0})
  unfolding adopt stage_afresh
  adopt_or_stage req true = adopt req
  adopt_or_stage req false = stage_afresh req

  unfoldable pub stage_known : StageRequest → Option Volume → M (Unit {0})
  unfolding adopt_or_stage
  stage_known req (some v) = require_healthy_staging h req.volume_id req.staging_path
  stage_known req none = do
    live ← is_staging_path_healthy h req.staging_path
    adopt_or_stage req live

  -- NodeStageVolume
  unfoldable pub node_stage_volume : StageRequest → M (Unit {0})
  unfolding stage_known
  node_stage_volume req = do
    require (is_given req.capability) "Volume capability missing in request"
    require (is_set req.volume_id) "Volume ID missing in request"
    require (is_set req.staging_path) "Target path missing in request"
    known ← load req.volume_id
    stage_known req known

  -- The self-healing of NodePublishVolume, for a volume that is not in the map.
  unfoldable pub restage : PublishRequest → Bool → M Volume
  unfolding cleanup_status restage_status
  restage req true = do
    let v = record (rebuild_volume_from_staging req.volume_id req.staging_path) {
      vol_context = some req.volume_context;
      read_only = is_publish_volume_read_only req;
    }
    store req.volume_id v
    pure v
  restage req false = do
    map_error (cleanup_status req.staging_path)
        (on_error (cleanup_stale_staging_path h req.staging_path) (drop_mutex req.volume_id))
    v ← map_error restage_status (
        on_error
          (stage_new_volume h d req.volume_id req.staging_path req.volume_context
            (is_publish_volume_read_only req))
          (drop_mutex req.volume_id))
    store req.volume_id v
    pure v

  unfoldable pub staged_volume : PublishRequest → Option Volume → M Volume
  unfolding restage
  staged_volume req (some v) = do require_healthy_staging h req.volume_id req.staging_path; pure v
  staged_volume req none = do live ← is_staging_path_healthy h req.staging_path; restage req live

  -- NodePublishVolume. The mount roots are recorded on Windows only.
  unfoldable pub node_publish_volume : PublishRequest → M (Unit {0})
  unfolding staged_volume internal_status
  node_publish_volume req = do
    require (is_given req.capability) "Volume capability missing in request"
    require (is_set req.volume_id) "Volume ID missing in request"
    require (is_set req.target_path) "Target path missing in request"
    require (is_set req.staging_path) "Staging target path missing in request"
    known ← load req.volume_id
    v ← staged_volume req known
    map_error internal_status (publish h d req.staging_path req.target_path req.readonly)
    store req.volume_id (add_publish_path req.target_path req.readonly v)
