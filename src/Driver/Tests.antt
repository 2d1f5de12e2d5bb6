-- ===== src/Driver/Tests.antt =====
-- The properties of the driver at concrete inputs.
use forks_seaweedfs_csi_driv.Common.{
  ℕ, ◌*◌, ◌<◌, ◌≤◌, ◌+◌, ◌≡◌, refl, ◌↔◌, inl, inr, String, Bool, true, false, Option, none, some,
  [], ◌∷◌, arith,
}
use forks_seaweedfs_csi_driv.Common.Dict.{Dict, NodupKeys, lookup, insert, insert_all, get_or_empty}
use forks_seaweedfs_csi_driv.Common.Decimal.{parse_int, pos, format_int, format_nat}
use forks_seaweedfs_csi_driv.Common.Failure.{Result, ok, err, failure}
use forks_seaweedfs_csi_driv.Driver.Host.{
  Host, Driver, Volume, Node, History, Query, answered, timed_out, is_dir, present, is_mount_point,
  is_likely_not_mount_point, has_entries, consult, try_ask, probe_statfs,
}
use forks_seaweedfs_csi_driv.Driver.Host.Monad.{pure, ◌>>=◌}
use forks_seaweedfs_csi_driv.Driver.Host.Yields.{Outcome}
use forks_seaweedfs_csi_driv.Driver.MountUtil.{
  slow, staging_path_health, health_of_stat, health_of_mount,
}
use forks_seaweedfs_csi_driv.Driver.MountUtil.Removal.{IsGuarded}
use forks_seaweedfs_csi_driv.Driver.Node.{
  StageRequest, PublishRequest, Capability, single_node_writer, check_health_unanswered,
  probe_in_time, in_time,
}
use forks_seaweedfs_csi_driv.Driver.Quota.{
  bytes_per_mib, initial_collection_quota_mb, initial_quota_holds,
}
use forks_seaweedfs_csi_driv.Driver.Wellformed.{IsWellformed}
use forks_seaweedfs_csi_driv.Driver.Wellformed.Requests.{Run-IsWellformed}
use forks_seaweedfs_csi_driv.Driver.Runs.{
  checks, start, then, stages, at_start, every_removal-IsGuarded,
}
use forks_seaweedfs_csi_driv.Driver.Node.Requests.{node_stage_volume, node_publish_volume}
use forks_seaweedfs_csi_driv.Driver.Node.Release.{node_unpublish_volume, node_unstage_volume}
use forks_seaweedfs_csi_driv.Driver.Node.Staging.{checked_context}
use forks_seaweedfs_csi_driv.Driver.Node.Probes.{calls}
use forks_seaweedfs_csi_driv.Driver.Node.Outcomes.{Staged, node_stage_volume_effect}
use forks_seaweedfs_csi_driv.Driver.Node.Publishing.{
  Published, NotPublished, node_publish_volume_effect,
}
use forks_seaweedfs_csi_driv.Driver.Node.Releasing.{
  withdrawn, dropped, node_unpublish_volume_effect, node_unstage_volume_effect,
}
use forks_seaweedfs_csi_driv.Driver.Node.Unready.{
  Refused, unready_publish-Refused, unready_stage-Refused,
}
use forks_seaweedfs_csi_driv.Driver.Health.Recovery.{recover_volume_as}
use forks_seaweedfs_csi_driv.Driver.Health.Recovered.{Recovered, recover_volume_as_effect}
use forks_seaweedfs_csi_driv.Driver.Health.Sweep.{perform_volume_health_check}
use forks_seaweedfs_csi_driv.Driver.Health.Spared.{
  spared_mount_untouched, unconfirmed_recovery_untouched,
}
use forks_seaweedfs_csi_driv.Driver.Params.{
  is_mutable, validate_value, validate_constrained_values, merge_persisted,
  validate_mutable_parameters, validate_writeback_dlm_combo, keep_mutable,
}
use forks_seaweedfs_csi_driv.Driver.Params.Accepted.{
  lookup-merge_persisted, validate_constrained_values_iff,
}
use forks_seaweedfs_csi_driv.Driver.Controller.{controller_modify_volume}
use forks_seaweedfs_csi_driv.Driver.Controller.Modified.{modified_volume_stages}

-- A system where every call succeeds, and where no path is a mount point.
abbrev calm_query : History → Query → Result Bool
calm_query past (is_dir p) = ok true
calm_query past (present p) = ok true
calm_query past (is_mount_point p) = ok false
calm_query past (is_likely_not_mount_point p) = ok true
calm_query past (has_entries p) = ok false

-- The same, where every path is a mount point.
abbrev mounted_query : History → Query → Result Bool
mounted_query past (is_mount_point p) = ok true
mounted_query past (is_likely_not_mount_point p) = ok false
mounted_query past q = calm_query past q

abbrev calm : Host
calm = record {
  act = λ past a. none;
  query = calm_query;
  beside_error = λ past q. false;
  statfs = λ past p. answered none;
  late = λ past p. false;
  probe_age = λ past p. 0;
  unanswered = λ past p. 0;
  device = λ past p. ok "0:42";
  capacity = λ past p. err (failure "no such volume");
  persisted = λ past p. ok [];
  clock = λ past. "20260101T000000Z";
}

-- A system where every mount leaves its probes without an answer.
abbrev busy : Host
busy = record calm { query = mounted_query; statfs = λ past p. timed_out }

abbrev driver : Driver
driver = record {
  name = "seaweedfs-csi-driver";
  volume_socket_dir = "/var/lib/seaweedfs-mount";
  cache_dir = "";
  temp_dir = "/tmp";
  volume_hash = λ id. "8b7df143";
  kubelet_root_dir = "";
  kubelet_root_mount = "";
}

abbrev writer : Option Capability
writer = some (record { access_mode = some single_node_writer })

abbrev stage_data : StageRequest
stage_data = record {
  volume_id = "data";
  staging_path = "/stage";
  capability = writer;
  volume_context = [];
}

abbrev publish_data : PublishRequest
publish_data = record {
  volume_id = "data";
  staging_path = "/stage";
  target_path = "/pods/a";
  capability = writer;
  readonly = false;
  volume_context = [];
}

abbrev data_volume : Volume
data_volume = record {
  volume_id = "data";
  staged_path = "/stage";
  unmounter = true;
  health_fail_count = 0;
  unhealthy_streak = 1;
  abnormal = none;
  publish_paths = ("/pods/a", false) ∷ [];
  vol_context = some [];
  read_only = false;
}

-- A plugin that tracks one volume.
abbrev tracking : Node
tracking = record { volumes = ("data", data_volume) ∷ []; history = [] }

every_removal-IsGuarded_example :
    IsGuarded (node_stage_volume calm driver stage_data at_start).1.history
every_removal-IsGuarded_example =
    every_removal-IsGuarded calm driver _ (then (start _) (stages stage_data at_start))

node_stage_volume_effect_example :
    Outcome
      (λ _ s. Staged stage_data [] (lookup "data" []) s.volumes)
      (λ _ s. s.volumes ≡ [])
      (node_stage_volume calm driver stage_data at_start).0
      (node_stage_volume calm driver stage_data at_start).1
node_stage_volume_effect_example = node_stage_volume_effect calm driver stage_data at_start

node_publish_volume_effect_example :
    Outcome
      (λ _ s. Published publish_data [] (lookup "data" []) s.volumes)
      (λ _ s. NotPublished publish_data [] (lookup "data" []) s.volumes)
      (node_publish_volume calm driver publish_data at_start).0
      (node_publish_volume calm driver publish_data at_start).1
node_publish_volume_effect_example = node_publish_volume_effect calm driver publish_data at_start

node_unpublish_volume_effect_example :
    (node_unpublish_volume calm driver "data" "/pods/a" tracking).1.volumes
    ≡ withdrawn "data" "/pods/a" tracking.volumes (lookup "data" tracking.volumes)
node_unpublish_volume_effect_example =
    node_unpublish_volume_effect calm driver "data" "/pods/a" tracking refl refl

node_unstage_volume_effect_example :
    Outcome
      (λ _ s. s.volumes ≡ dropped "data" tracking.volumes (lookup "data" tracking.volumes))
      (λ _ s. s.volumes ≡ tracking.volumes)
      (node_unstage_volume calm driver "data" "/stage" tracking).0
      (node_unstage_volume calm driver "data" "/stage" tracking).1
node_unstage_volume_effect_example = node_unstage_volume_effect calm driver "data" "/stage" tracking

found_data : lookup "data" tracking.volumes ≡ some data_volume
unfolding lookup
found_data = refl

busy_verdict : (check_health_unanswered busy "/stage" tracking).0 ≡ ok (slow, 0)
unfolding check_health_unanswered probe_in_time in_time staging_path_health health_of_stat
    health_of_mount consult try_ask probe_statfs ◌>>=◌ pure
busy_verdict = refl

spared_mount_untouched_example :
    let after = (perform_volume_health_check busy driver "data" tracking).1 in
    (calls after.history ≡ [])
    × (after.volumes ≡ insert "data" (record data_volume { unhealthy_streak = 2 }) tracking.volumes)
spared_mount_untouched_example =
    spared_mount_untouched busy driver "data" data_volume tracking slow 0 found_data refl
      busy_verdict (inl (omega arith))

unconfirmed_recovery_untouched_example :
    let after = (recover_volume_as busy driver "data" true tracking).1 in
    (calls after.history ≡ []) × (after.volumes ≡ tracking.volumes)
unconfirmed_recovery_untouched_example =
    unconfirmed_recovery_untouched busy driver "data" true data_volume tracking slow 0 found_data
      busy_verdict (inr (omega arith))

recover_volume_as_effect_example :
    Outcome
      (λ _ s. Recovered "data" tracking.volumes (lookup "data" tracking.volumes) s.volumes)
      (λ _ s. s.volumes ≡ tracking.volumes)
      (recover_volume_as calm driver "data" false tracking).0
      (recover_volume_as calm driver "data" false tracking).1
recover_volume_as_effect_example = recover_volume_as_effect calm driver "data" false tracking

unready_publish-Refused_example :
    Refused tracking (node_publish_volume busy driver publish_data tracking)
unready_publish-Refused_example =
    unready_publish-Refused busy driver publish_data data_volume tracking slow 0 refl refl refl refl
      found_data busy_verdict tt

unready_stage-Refused_example : Refused tracking (node_stage_volume busy driver stage_data tracking)
unready_stage-Refused_example =
    unready_stage-Refused busy driver stage_data data_volume tracking slow 0 refl refl refl
      found_data busy_verdict tt

-- A class that raises the readers of a volume with static writeback caching.
abbrev static : Dict String
static = ("writebackCache", "true") ∷ ("collection", "c") ∷ []

abbrev modified : Dict String
modified = ("concurrentReaders", "16") ∷ []

static_nodup : NodupKeys static
unfolding lookup
static_nodup = (refl, (refl, tt))

modified_nodup : NodupKeys modified
unfolding lookup
modified_nodup = (refl, tt)

modified_accepted : controller_modify_volume "data" modified (ok static) none ≡ ok tt
unfolding controller_modify_volume validate_mutable_parameters is_mutable validate_value parse_int
    validate_writeback_dlm_combo get_or_empty lookup validate_constrained_values insert_all insert
    keep_mutable
modified_accepted = refl

modified_volume_stages_example :
    checked_context "data" static (ok modified) at_start
    ≡ (ok (merge_persisted static modified), at_start)
modified_volume_stages_example =
    modified_volume_stages "data" modified static none at_start static_nodup modified_nodup
      modified_accepted

lookup-merge_persisted_example :
    lookup "concurrentReaders" (merge_persisted static modified) ≡ some "16"
unfolding lookup is_mutable
lookup-merge_persisted_example =
    lookup-merge_persisted "concurrentReaders" static modified modified_nodup

validate_constrained_values_iff_example : (validate_constrained_values modified ≡ none) ↔ (
    (k v : String) → lookup k modified ≡ some v → is_mutable k ≡ true → validate_value k v ≡ none)
validate_constrained_values_iff_example = validate_constrained_values_iff modified modified_nodup

Run-IsWellformed_example :
    IsWellformed
      (perform_volume_health_check busy driver "data"
        (node_stage_volume busy driver stage_data at_start).1).1.volumes
Run-IsWellformed_example =
    Run-IsWellformed busy driver _
      (then (then (start _) (stages stage_data at_start)) (checks "data" _))

initial_quota_holds_example :
    (mb : ℕ) × (initial_collection_quota_mb (format_int (pos 2097153)) ≡ format_nat mb)
    × (2097153 ≤ mb * bytes_per_mib)
    × (mb * bytes_per_mib < 2097153 + bytes_per_mib)
initial_quota_holds_example = initial_quota_holds 2097153 (omega arith) (omega arith)
