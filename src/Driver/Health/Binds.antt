-- ===== src/Driver/Health/Binds.antt =====
-- The publish binds of a volume in the health monitor of pkg/driver/health_monitor.go.
use forks_seaweedfs_csi_driv.Common.{
  String, Bool, true, false, Option, none, some, [], ◌∷◌, ◌==◌, if◌then◌else◌,
}
use forks_seaweedfs_csi_driv.Common.Dict.{Dict}
use forks_seaweedfs_csi_driv.Common.Failure.{Failure, Result, ok, err}
use forks_seaweedfs_csi_driv.Driver.Host.{
  Host, Driver, Volume, M, unmount, cleanup_mount_point, repair_containers, load, attempt,
}
use forks_seaweedfs_csi_driv.Driver.Host.Monad.{pure, catch, ◌>>=◌, ◌>>◌}
use forks_seaweedfs_csi_driv.Driver.MountUtil.{Health, dead, reset_statfs_probe}
use forks_seaweedfs_csi_driv.Driver.Volume.{publish}
use forks_seaweedfs_csi_driv.Driver.Node.{check_health}

abbrev pub is_dead : Health → Bool
is_dead dead = true
is_dead _ = false

abbrev succeeded {ℓ} : {A : Type ℓ} → Result A → Bool
succeeded (ok a) = true
succeeded (err e) = false

module _ (h : Host) (d : Driver) where
  -- hasUnhealthyPublishPath: the range stops at the first dead path.
  unfoldable pub has_unhealthy_publish_path : Dict Bool → M Bool
  has_unhealthy_publish_path [] = pure false
  has_unhealthy_publish_path ((path, ro) ∷ paths) = do
    r ← check_health h path
    if is_dead r then pure true else has_unhealthy_publish_path paths

  unfoldable pub cleaned_up : String → Option Failure → M Bool
  cleaned_up path (some e) = pure false
  cleaned_up path none = do reset_statfs_probe path; pure true

  unfoldable pub unmounted_of : String → Option Failure → M Bool
  unfolding cleaned_up
  unmounted_of path none = do reset_statfs_probe path; pure true
  unmounted_of path (some e) = do r ← attempt h (cleanup_mount_point path); cleaned_up path r

  -- tearDownStalePublishBind
  unfoldable pub tear_down_stale_publish_bind : String → M Bool
  unfolding unmounted_of
  tear_down_stale_publish_bind path = do r ← attempt h (unmount path); unmounted_of path r

  -- repairStaleContainerMounts; what it does inside the containers is one action.
  unfoldable pub repair : Bool → String → String → M (Unit {0})
  repair false path staging = pure tt
  repair true path staging = do r ← attempt h (repair_containers path staging); pure tt

  unfoldable pub publish_again : Bool → String → String → Bool → M Bool
  publish_again false staging path ro = pure false
  publish_again true staging path ro = do
    r ← catch (publish h d staging path ro)
    pure (succeeded r)

  unfoldable pub retry_path : String → String → Bool → Bool → M (Unit {0})
  unfolding publish_again
  retry_path staging path ro false = pure tt
  retry_path staging path ro true = do
    gone ← tear_down_stale_publish_bind path
    done ← publish_again gone staging path ro
    repair done path staging

  unfoldable pub retry_all : String → Dict Bool → M (Unit {0})
  unfolding retry_path
  retry_all staging [] = pure tt
  retry_all staging ((path, ro) ∷ paths) = do
    r ← check_health h path
    retry_path staging path ro (is_dead r)
    retry_all staging paths

  unfoldable pub retry_live : Volume → Bool → M (Unit {0})
  unfolding retry_all
  retry_live v true = pure tt
  retry_live v false = retry_all v.staged_path v.publish_paths

  unfoldable pub retry_known : Option Volume → M (Unit {0})
  unfolding retry_live
  retry_known none = pure tt
  retry_known (some v) = do r ← check_health h v.staged_path; retry_live v (is_dead r)

  -- retryPublishPaths
  unfoldable pub retry_publish_paths : String → M (Unit {0})
  unfolding retry_known
  retry_publish_paths id = do known ← load id; retry_known known

  unfoldable pub repair_all : String → Dict Bool → M (Unit {0})
  repair_all staging [] = pure tt
  repair_all staging ((path, ro) ∷ paths) = do repair true path staging; repair_all staging paths

  unfoldable pub repair_known : Option Volume → M (Unit {0})
  unfolding repair_all
  repair_known none = pure tt
  repair_known (some v) =
      if v.staged_path == "" then pure tt else repair_all v.staged_path v.publish_paths

  -- repairContainerMounts
  unfoldable pub repair_container_mounts : String → M (Unit {0})
  unfolding repair_known
  repair_container_mounts id = do known ← load id; repair_known known

  -- Step 4 of recoverVolumeAs: which of the publish binds are gone.
  unfoldable pub tear_down_all : Dict Bool → M (Dict Bool)
  tear_down_all [] = pure []
  tear_down_all ((path, ro) ∷ paths) = do
    gone ← tear_down_stale_publish_bind path
    others ← tear_down_all paths
    pure ((path, gone) ∷ others)

  -- Step 5 of recoverVolumeAs: the binds that were published again.
  unfoldable pub publish_all : String → (Dict Bool) → (String → Bool) → M (Dict Bool)
  unfolding publish_again
  publish_all staging [] gone = pure []
  publish_all staging ((path, ro) ∷ paths) gone = do
    done ← publish_again (gone path) staging path ro
    others ← publish_all staging paths gone
    pure (if done then (path, ro) ∷ others else others)
