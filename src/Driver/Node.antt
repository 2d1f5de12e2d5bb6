-- ===== src/Driver/Node.antt =====
-- The node service: pkg/driver/nodeserver.go. A request holds the mutex of its volume from its
-- argument checks to its return, so it is one step here.
pub mod Release
pub mod Requests
pub mod Staging
pub mod Probes
pub mod Steady
pub mod Effects
pub mod Unready
pub mod Quarantine
pub mod Releasing
pub mod Publishing
pub mod Outcomes
pub mod Logged
pub mod Guarded
use forks_seaweedfs_csi_driv.Common.{
  ℕ, String, ◌<>◌, Bool, true, false, ◌||◌, not, Option, none, some, List, [], ◌∷◌, ◌==◌, leb,
  if◌then◌else◌,
}
use forks_seaweedfs_csi_driv.Common.Text.{contains}
use forks_seaweedfs_csi_driv.Common.Dict.{Dict, insert, get_or_empty}
use forks_seaweedfs_csi_driv.Common.Decimal.{ℤ, pos, negsuc, parse_int, format_int}
use forks_seaweedfs_csi_driv.Common.Failure.{
  Failure, Result, ok, err, failure, status_error, invalid_argument, internal, unavailable,
  permission_denied, is_permission, is_corrupted,
}
use forks_seaweedfs_csi_driv.Driver.Host.{
  Host, Driver, Volume, Node, M, History, dropped_mutex, new_client, is_dir, rename, mkdir_all,
  cleanup_mount_point, has_entries, log, note, load, store, delete, consult, attempt, try_ask,
}
use forks_seaweedfs_csi_driv.Driver.Host.Monad.{
  pure, raise, or_raise, catch, map_error, on_error, ◌>>=◌, ◌>>◌,
}
use forks_seaweedfs_csi_driv.Driver.MountUtil.{
  Health, healthy, dead, slow, staging_path_health, is_staging_path_healthy,
  cleanup_stale_staging_path, reset_statfs_probe, is_path_mounted,
}
use forks_seaweedfs_csi_driv.Driver.Params.{
  merge_persisted, validate_constrained_values, validate_writeback_dlm_combo, quoted,
}
use forks_seaweedfs_csi_driv.Driver.Volume.{
  new_volume, add_publish_path, remove_publish_path, stage, publish, quota, unpublish, unstage,
  cleanup_volume_resources, join_path,
}

-- csi.VolumeCapability_AccessMode_Mode
pub data AccessMode : Type 0 where
  unknown single_node_writer single_node_reader_only multi_node_reader_only : AccessMode
  multi_node_single_writer multi_node_multi_writer : AccessMode
  single_node_single_writer single_node_multi_writer : AccessMode

pub record Capability : Type 0 where
  pub access_mode : Option AccessMode

pub record StageRequest : Type 0 where
  pub volume_id : String
  pub staging_path : String
  pub capability : Option Capability
  pub volume_context : Dict String

pub record PublishRequest : Type 0 where
  pub volume_id : String
  pub staging_path : String
  pub target_path : String
  pub capability : Option Capability
  pub readonly : Bool
  pub volume_context : Dict String

-- isReadOnlyAccessMode
unfoldable pub is_read_only_access_mode : AccessMode → Bool
is_read_only_access_mode single_node_reader_only = true
is_read_only_access_mode multi_node_reader_only = true
is_read_only_access_mode _ = false

-- isVolumeReadOnly
unfoldable pub is_volume_read_only : Option Capability → Bool
unfolding is_read_only_access_mode
is_volume_read_only none = false
is_volume_read_only (some c) = elim c.access_mode [
  | none ↦ false
  | some m ↦ is_read_only_access_mode m
]

-- isPublishVolumeReadOnly
unfoldable pub is_publish_volume_read_only : PublishRequest → Bool
unfolding is_volume_read_only
is_publish_volume_read_only req = if req.readonly then true else is_volume_read_only req.capability

abbrev pub volume_capacity_key : String
volume_capacity_key = "volumeCapacity"

abbrev pub health_text : Health → String
health_text healthy = "ok"
health_text dead = "dead"
health_text slow = "slow"

-- removeVolumeMutex
abbrev pub drop_mutex : String → Node → Node
drop_mutex id = log (dropped_mutex id)

-- The argument checks of a request: an argument that is missing ends it.
unfoldable pub require : Bool → String → M (Unit {0})
require true message = pure tt
require false message = raise (status_error invalid_argument message)

abbrev pub is_given {ℓ} : {A : Type ℓ} → Option A → Bool
is_given none = false
is_given (some a) = true

abbrev pub is_set : String → Bool
is_set s = not (s == "")

abbrev max : ℕ → ℕ → ℕ
max a b = if leb a b then b else a

module _ (h : Host) where
  -- checkHealthUnanswered: the state of the mount, and for how long it has left a probe unanswered.
  unfoldable pub in_time : String → Health → M (Health × ℕ)
  in_time path slow = do u ← consult (λ past. h.unanswered past path); pure (slow, u)
  in_time path r = pure (r, 0)

  unfoldable pub probe_in_time : String → Bool → M (Health × ℕ)
  unfolding in_time
  probe_in_time path true = do
    age ← consult (λ past. h.probe_age past path)
    u ← consult (λ past. h.unanswered past path)
    pure (slow, max age u)
  probe_in_time path false = do r ← staging_path_health h path; in_time path r

  unfoldable pub check_health_unanswered : String → M (Health × ℕ)
  unfolding probe_in_time
  check_health_unanswered path = do
    late ← consult (λ past. h.late past path)
    probe_in_time path late

  -- checkHealth
  unfoldable pub check_health : String → M Health
  check_health path = do r ← check_health_unanswered path; pure r.0

  unfoldable pub not_ready : String → String → Health → M (Unit {0})
  not_ready id path healthy = pure tt
  not_ready id path r = raise (
      status_error unavailable (
        "volume "
        <> (id
            <> (" staging path "
                <> (path <> (" is not ready (" <> (health_text r <> "); retry after recovery")))))))

  -- requireHealthyStaging
  unfoldable pub require_healthy_staging : String → String → M (Unit {0})
  unfolding not_ready
  require_healthy_staging id path = do r ← check_health path; not_ready id path r

-- rebuildVolumeFromStaging: no unmounter.
unfoldable pub rebuild_volume_from_staging : String → String → Volume
unfolding new_volume
rebuild_volume_from_staging id path = record (new_volume id) { staged_path = path }

abbrev non_negative : Option ℤ → Option ℤ
non_negative none = none
non_negative (some (pos n)) = some (pos n)
non_negative (some (negsuc n)) = none

-- resolveVolumeCapacity: the orchestrator's answer, or else the volume context. `some none` stands
-- for "no capacity known".
unfoldable pub resolve_volume_capacity : Result ℤ → Dict String → Result (Option ℤ)
resolve_volume_capacity (ok c) context = ok (some c)
resolve_volume_capacity (err e) context =
    let value = get_or_empty volume_capacity_key context in
    if value == "" then ok none else elim (non_negative (parse_int value)) [
      | some c ↦ ok (some c)
      | none ↦ err (failure ("invalid volumeCapacity value " <> quoted value))
    ]
