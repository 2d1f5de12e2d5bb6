-- ===== src/Driver/Health/Guarded.antt =====
-- The removals of the health monitor of pkg/driver/health_monitor.go.
use forks_seaweedfs_csi_driv.Common.{String, Bool, true, false, Option, none, some, ℕ}
use forks_seaweedfs_csi_driv.Common.Dict.{Dict}
use forks_seaweedfs_csi_driv.Driver.Host.{Host, Driver, Volume, Node, store}
use forks_seaweedfs_csi_driv.Driver.Host.Keeps.{Keeps, keeps_rules, Keeps-pure, Keeps-raise}
use forks_seaweedfs_csi_driv.Driver.MountUtil.{Health, healthy, dead, slow}
use forks_seaweedfs_csi_driv.Driver.Node.Probes.{consult-Keeps, check_health_unanswered-Keeps}
use forks_seaweedfs_csi_driv.Driver.Node.Steady.{Steady, load-Keeps}
use forks_seaweedfs_csi_driv.Driver.Node.Guarded.{guarded, store-Guarded}
use forks_seaweedfs_csi_driv.Driver.MountUtil.Removal.{Guarded}
use forks_seaweedfs_csi_driv.Driver.Health.Recovery.{
  recover_with_context, recover_known, recover_volume_as,
}
use forks_seaweedfs_csi_driv.Driver.Health.Sweep.{
  retry_if, mend_binds, recover, respond, check_staged, check_known, perform_volume_health_check,
}
use forks_seaweedfs_csi_driv.Driver.Health.Steady.{
  abort-Keeps, has_unhealthy-Keeps, retry_publish_paths-Keeps, repair_container_mounts-Keeps,
  recheck-Keeps, remount_all-Keeps, replace_mount-Keeps,
}

module _ {h : Host} {d : Driver} {P : Node → Type 0} (steady : Steady h d P)
    (stores : (id : String) (v : Volume) → Keeps P (store id v)) where
  recover_with_context-Keeps :
      (id : String) (hung : Bool) (v : Volume) (c : Option (Dict String))
      → Keeps P (recover_with_context h d id hung v c)
  unfolding recover_with_context
  recover_with_context-Keeps id hung v none = Keeps-raise _
  recover_with_context-Keeps id hung v (some c) =
      search
        (keeps_rules, consult-Keeps, replace_mount-Keeps steady, stores, remount_all-Keeps steady)

  recover_known-Keeps :
      (id : String) (hung : Bool) (v : Option Volume) → Keeps P (recover_known h d id hung v)
  unfolding recover_known
  recover_known-Keeps id hung none = Keeps-raise _
  recover_known-Keeps id hung (some v) =
      search (keeps_rules, recheck-Keeps steady, abort-Keeps, recover_with_context-Keeps)

  recover_volume_as-Keeps : (id : String) (hung : Bool) → Keeps P (recover_volume_as h d id hung)
  unfolding recover_volume_as
  recover_volume_as-Keeps id hung = search (keeps_rules, load-Keeps, recover_known-Keeps)

  retry_if-Keeps : (b : Bool) (id : String) → Keeps P (retry_if h d b id)
  unfolding retry_if
  retry_if-Keeps true id = retry_publish_paths-Keeps steady id
  retry_if-Keeps false id = Keeps-pure tt

  mend_binds-Keeps : (id : String) (v : Volume) → Keeps P (mend_binds h d id v)
  unfolding mend_binds
  mend_binds-Keeps id v = search (
    keeps_rules,
    has_unhealthy-Keeps steady,
    retry_if-Keeps,
    repair_container_mounts-Keeps steady,
  )

  recover-Keeps : (id : String) (r : Health) (u : ℕ) (v : Volume) → Keeps P (recover h d id r u v)
  unfolding recover
  recover-Keeps id r u v = search (keeps_rules, stores, recover_volume_as-Keeps)

  respond-Keeps : (id : String) (r : Health) (u : ℕ) (v : Volume) → Keeps P (respond h d id r u v)
  unfolding respond
  respond-Keeps id healthy u v = mend_binds-Keeps id v
  respond-Keeps id dead u v = search (keeps_rules, recover-Keeps)
  respond-Keeps id slow u v = search (keeps_rules, recover-Keeps)

  check_staged-Keeps : (id : String) (v : Volume) → Keeps P (check_staged h d id v)
  unfolding check_staged
  check_staged-Keeps id v =
      search (keeps_rules, check_health_unanswered-Keeps steady.observes, stores, respond-Keeps)

  check_known-Keeps : (id : String) (v : Option Volume) → Keeps P (check_known h d id v)
  unfolding check_known
  check_known-Keeps id none = Keeps-pure tt
  check_known-Keeps id (some v) = search (keeps_rules, check_staged-Keeps)

  perform-Keeps : (id : String) → Keeps P (perform_volume_health_check h d id)
  unfolding perform_volume_health_check
  perform-Keeps id = search (keeps_rules, load-Keeps, check_known-Keeps)

-- A health check of a volume, with the recovery that it starts, keeps every removal guarded.
pub perform_volume_health_check-Guarded :
    (h : Host) (d : Driver) (id : String) → Keeps Guarded (perform_volume_health_check h d id)
perform_volume_health_check-Guarded h d id = perform-Keeps (guarded h d) store-Guarded id
