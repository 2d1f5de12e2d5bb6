-- ===== src/Driver/Health/Recovery.antt =====
-- recoverVolumeAs of pkg/driver/health_monitor.go. A recovery that the code gives up is raised with
-- the reason; the caller drops it.
use forks_seaweedfs_csi_driv.Common.{
  String, Bool, true, false, not, Option, none, some, [], ◌∷◌, ◌==◌, if◌then◌else◌,
}
use forks_seaweedfs_csi_driv.Common.Dict.{Dict, lookup, insert_all}
use forks_seaweedfs_csi_driv.Common.Failure.{Failure, Result, ok, err, failure}
use forks_seaweedfs_csi_driv.Driver.Host.{
  Host, Driver, Volume, M, History, is_likely_not_mount_point, new_client, service_unmount,
  remount_in_containers, load, store, consult, attempt, try_ask,
}
use forks_seaweedfs_csi_driv.Driver.Host.Monad.{pure, raise, or_raise, ◌>>=◌, ◌>>◌}
use forks_seaweedfs_csi_driv.Driver.MountUtil.{
  reset_statfs_probe, detach_dead_mount_point, is_path_mounted, cleanup_stale_staging_path,
}
use forks_seaweedfs_csi_driv.Driver.Node.{check_health_unanswered}
use forks_seaweedfs_csi_driv.Driver.Node.Staging.{stage_new_volume}
use forks_seaweedfs_csi_driv.Driver.Health.{is_confirmed, is_dead_mount, require_or_abort}
use forks_seaweedfs_csi_driv.Driver.Health.Binds.{tear_down_all, publish_all, repair}

-- getMountDevice; an error leaves the empty text.
device_or_empty : Result String → String
device_or_empty (ok dev) = dev
device_or_empty (err e) = ""

bind_device : Host → Dict Bool → History → String
bind_device h [] past = ""
bind_device h ((path, ro) ∷ paths) past =
    let dev = device_or_empty (h.device past path) in
    let other = bind_device h paths past in if dev == "" then other else dev

-- The device of the old mount, by which the containers' stale mounts are found.
unfoldable pub old_device : Host → String → Dict Bool → History → String
unfolding device_or_empty bind_device
old_device h staging paths past =
    let dev = device_or_empty (h.device past staging) in
    if dev == "" then bind_device h paths past else dev

is_gone : Dict Bool → String → Bool
is_gone gone path = elim (lookup path gone) [ none ↦ false | some b ↦ b ]

is_still_mounted : Result Bool → Bool
is_still_mounted (ok mounted) = mounted
is_still_mounted (err e) = false

module _ (h : Host) (d : Driver) where
  -- `recheck`
  unfoldable pub recheck : Bool → String → M Bool
  recheck hung path = do r ← check_health_unanswered h path; pure (is_confirmed hung r.0 r.1)

  unfoldable pub stop_client : String → String → Option Failure → M (Unit {0})
  stop_client id staging (some e) = raise e
  stop_client id staging none = do
    r ← attempt h (service_unmount id)
    or_raise r (reset_statfs_probe staging)

  -- Step 1: the mount service stops the weed mount. A hung mount's process is alive, so a volume
  -- without an unmounter asks for one.
  unfoldable pub stop_weed_mount : String → Bool → Volume → Bool → M (Unit {0})
  unfolding stop_client
  stop_weed_mount id hung v true = stop_client v.volume_id v.staged_path none
  stop_weed_mount id false v false = pure tt
  stop_weed_mount id true v false = do r ← attempt h (new_client id); stop_client id v.staged_path r

  -- A path that still looks mounted may be detached only when its daemon is dead.
  unfoldable pub require_dead : String → Bool → Result Bool → M (Unit {0})
  require_dead staging hung (err e) = pure tt
  require_dead staging hung (ok true) = pure tt
  require_dead staging hung (ok false) = do
    gone ← is_dead_mount h staging hung
    require_or_abort gone "still a mount point"

  unfoldable pub detach_staging : String → Bool → M (Unit {0})
  unfolding require_dead is_still_mounted
  detach_staging staging hung = do
    confirmed ← recheck hung staging
    require_or_abort confirmed "no longer confirmed dead after manager unmount"
    looks ← try_ask h (is_likely_not_mount_point staging)
    require_dead staging hung looks
    r ← detach_dead_mount_point h staging
    or_raise r (reset_statfs_probe staging)
    mounted ← is_path_mounted h staging
    require_or_abort (not (is_still_mounted mounted)) "still a mount point"

  unfoldable pub remount_with : String → String → String → Bool → M (Unit {0})
  remount_with dev path staging ro =
      if dev == ""
      then pure tt
      else (do r ← attempt h (remount_in_containers path staging dev ro); pure tt)

  -- Step 7
  unfoldable pub remount_all : String → String → Dict Bool → M (Unit {0})
  unfolding remount_with
  remount_all dev staging [] = pure tt
  remount_all dev staging ((path, ro) ∷ paths) = do
    remount_with dev path staging ro
    repair h d true path staging
    remount_all dev staging paths

  -- Steps 1 to 5: the new volume and the binds that were published again.
  unfoldable pub replace_mount : String → Bool → Volume → Dict String → M (Volume × Dict Bool)
  unfolding stop_weed_mount detach_staging is_gone
  replace_mount id hung v context = do
    stop_weed_mount id hung v v.unmounter
    detach_staging v.staged_path hung
    cleanup_stale_staging_path h v.staged_path
    w ← stage_new_volume h d id v.staged_path context v.read_only
    gone ← tear_down_all h d v.publish_paths
    recovered ← publish_all h d v.staged_path v.publish_paths (is_gone gone)
    pure (record w { publish_paths = insert_all w.publish_paths v.publish_paths }, recovered)

  unfoldable pub recover_with_context : String → Bool → Volume → Option (Dict String) → M (Unit {0})
  unfolding replace_mount remount_all
  recover_with_context id hung v none = raise (failure "no volume context available")
  recover_with_context id hung v (some context) = do
    dev ← consult (old_device h v.staged_path v.publish_paths)
    r ← replace_mount id hung v context
    store id r.0
    remount_all dev v.staged_path r.1

  unfoldable pub recover_known : String → Bool → Option Volume → M (Unit {0})
  unfolding recover_with_context
  recover_known id hung none = raise (failure "volume no longer exists")
  recover_known id hung (some v) = do
    confirmed ← recheck hung v.staged_path
    require_or_abort confirmed "no longer confirmed dead"
    recover_with_context id hung v v.vol_context

  -- recoverVolumeAs
  unfoldable pub recover_volume_as : String → Bool → M (Unit {0})
  unfolding recover_known
  recover_volume_as id hung = do known ← load id; recover_known id hung known
