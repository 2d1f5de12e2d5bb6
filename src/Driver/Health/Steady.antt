-- ===== src/Driver/Health/Steady.antt =====
-- What the calls of the system keep, the code of the health monitor keeps.
use forks_seaweedfs_csi_driv.Common.{String, Bool, true, false, Option, none, some, [], ◌∷◌}
use forks_seaweedfs_csi_driv.Common.Dict.{Dict}
use forks_seaweedfs_csi_driv.Common.Failure.{Failure, Result, ok, err}
use forks_seaweedfs_csi_driv.Driver.Host.{Host, Driver, Volume, Node}
use forks_seaweedfs_csi_driv.Driver.Host.Keeps.{
  Keeps, keeps_rules, Keeps-pure, Keeps-raise, Keeps-if, Keeps-bind,
}
use forks_seaweedfs_csi_driv.Driver.Node.Probes.{
  consult-Keeps, is_path_mounted-Keeps, check_health-Keeps, check_health_unanswered-Keeps,
}
use forks_seaweedfs_csi_driv.Driver.Node.Steady.{
  Steady, load-Keeps, detach-Keeps, publish-Keeps, stage_new_volume-Keeps,
}
use forks_seaweedfs_csi_driv.Driver.Health.{is_dead_mount, require_or_abort}
use forks_seaweedfs_csi_driv.Driver.Health.Binds.{
  is_dead, has_unhealthy_publish_path, cleaned_up, unmounted_of, tear_down_stale_publish_bind,
  repair, publish_again, retry_path, retry_all, retry_live, retry_known, retry_publish_paths,
  repair_all, repair_known, repair_container_mounts, tear_down_all, publish_all,
}
use forks_seaweedfs_csi_driv.Driver.Health.Recovery.{
  recheck, stop_client, stop_weed_mount, require_dead, detach_staging, remount_with, remount_all,
  replace_mount,
}

pub abort-Keeps : {P : Node → Type 0} (b : Bool) (m : String) → Keeps P (require_or_abort b m)
unfolding require_or_abort
abort-Keeps true m = Keeps-pure tt
abort-Keeps false m = Keeps-raise _

module _ {h : Host} {d : Driver} {P : Node → Type 0} (steady : Steady h d P) where
  pub is_dead_mount-Keeps : (p : String) (b : Bool) → Keeps P (is_dead_mount h p b)
  unfolding is_dead_mount
  is_dead_mount-Keeps p b = search (keeps_rules, steady.observes.probes, consult-Keeps)

  pub has_unhealthy-Keeps : (ps : Dict Bool) → Keeps P (has_unhealthy_publish_path h d ps)
  unfolding has_unhealthy_publish_path
  has_unhealthy-Keeps [] = Keeps-pure _
  has_unhealthy-Keeps ((p, ro) ∷ ps) =
      Keeps-bind _ _ (check_health-Keeps steady.observes p)
        (λ r. Keeps-if (is_dead r) _ _ (Keeps-pure _) (has_unhealthy-Keeps ps))

  pub cleaned_up-Keeps : (p : String) (r : Option Failure) → Keeps P (cleaned_up h d p r)
  unfolding cleaned_up
  cleaned_up-Keeps p (some e) = Keeps-pure _
  cleaned_up-Keeps p none = search (keeps_rules, steady.resets)

  pub unmounted_of-Keeps : (p : String) (r : Option Failure) → Keeps P (unmounted_of h d p r)
  unfolding unmounted_of
  unmounted_of-Keeps p none = search (keeps_rules, steady.resets)
  unmounted_of-Keeps p (some e) = search (keeps_rules, steady.attempts, cleaned_up-Keeps)

  pub tear_down-Keeps : (p : String) → Keeps P (tear_down_stale_publish_bind h d p)
  unfolding tear_down_stale_publish_bind
  tear_down-Keeps p = search (keeps_rules, steady.attempts, unmounted_of-Keeps)

  pub repair-Keeps : (b : Bool) (p s : String) → Keeps P (repair h d b p s)
  unfolding repair
  repair-Keeps false p s = Keeps-pure tt
  repair-Keeps true p s = search (keeps_rules, steady.attempts)

  pub publish_again-Keeps :
      (b : Bool) (s p : String) (ro : Bool) → Keeps P (publish_again h d b s p ro)
  unfolding publish_again
  publish_again-Keeps false s p ro = Keeps-pure _
  publish_again-Keeps true s p ro = search (keeps_rules, publish-Keeps steady)

  pub retry_path-Keeps : (s p : String) (ro b : Bool) → Keeps P (retry_path h d s p ro b)
  unfolding retry_path
  retry_path-Keeps s p ro false = Keeps-pure tt
  retry_path-Keeps s p ro true =
      search (keeps_rules, tear_down-Keeps, publish_again-Keeps, repair-Keeps)

  pub retry_all-Keeps : (s : String) (ps : Dict Bool) → Keeps P (retry_all h d s ps)
  unfolding retry_all
  retry_all-Keeps s [] = Keeps-pure tt
  retry_all-Keeps s ((p, ro) ∷ ps) =
      Keeps-bind _ _ (check_health-Keeps steady.observes p)
        (λ r. Keeps-bind _ _ (retry_path-Keeps s p ro (is_dead r)) (λ _. retry_all-Keeps s ps))

  pub retry_live-Keeps : (v : Volume) (b : Bool) → Keeps P (retry_live h d v b)
  unfolding retry_live
  retry_live-Keeps v true = Keeps-pure tt
  retry_live-Keeps v false = retry_all-Keeps _ _

  pub retry_known-Keeps : (v : Option Volume) → Keeps P (retry_known h d v)
  unfolding retry_known
  retry_known-Keeps none = Keeps-pure tt
  retry_known-Keeps (some v) =
      search (keeps_rules, check_health-Keeps steady.observes, retry_live-Keeps)

  pub retry_publish_paths-Keeps : (id : String) → Keeps P (retry_publish_paths h d id)
  unfolding retry_publish_paths
  retry_publish_paths-Keeps id = search (keeps_rules, load-Keeps, retry_known-Keeps)

  pub repair_all-Keeps : (s : String) (ps : Dict Bool) → Keeps P (repair_all h d s ps)
  unfolding repair_all
  repair_all-Keeps s [] = Keeps-pure tt
  repair_all-Keeps s ((p, ro) ∷ ps) =
      Keeps-bind _ _ (repair-Keeps true p s) (λ _. repair_all-Keeps s ps)

  pub repair_known-Keeps : (v : Option Volume) → Keeps P (repair_known h d v)
  unfolding repair_known
  repair_known-Keeps none = Keeps-pure tt
  repair_known-Keeps (some v) = search (keeps_rules, repair_all-Keeps)

  pub repair_container_mounts-Keeps : (id : String) → Keeps P (repair_container_mounts h d id)
  unfolding repair_container_mounts
  repair_container_mounts-Keeps id = search (keeps_rules, load-Keeps, repair_known-Keeps)

  pub tear_down_all-Keeps : (ps : Dict Bool) → Keeps P (tear_down_all h d ps)
  unfolding tear_down_all
  tear_down_all-Keeps [] = Keeps-pure _
  tear_down_all-Keeps ((p, ro) ∷ ps) =
      Keeps-bind _ _ (tear_down-Keeps p)
        (λ b. Keeps-bind _ _ (tear_down_all-Keeps ps) (λ _. Keeps-pure _))

  pub publish_all-Keeps :
      (s : String) (ps : Dict Bool) (gone : String → Bool) → Keeps P (publish_all h d s ps gone)
  unfolding publish_all
  publish_all-Keeps s [] gone = Keeps-pure _
  publish_all-Keeps s ((p, ro) ∷ ps) gone =
      Keeps-bind _ _ (publish_again-Keeps (gone p) s p ro)
        (λ b. Keeps-bind _ _ (publish_all-Keeps s ps gone) (λ _. Keeps-pure _))

  pub recheck-Keeps : (hung : Bool) (p : String) → Keeps P (recheck h d hung p)
  unfolding recheck
  recheck-Keeps hung p = search (keeps_rules, check_health_unanswered-Keeps steady.observes)

  pub stop_client-Keeps : (id s : String) (r : Option Failure) → Keeps P (stop_client h d id s r)
  unfolding stop_client
  stop_client-Keeps id s (some e) = Keeps-raise e
  stop_client-Keeps id s none = search (keeps_rules, steady.attempts, steady.resets)

  pub stop_weed_mount-Keeps :
      (id : String) (hung : Bool) (v : Volume) (b : Bool)
      → Keeps P (stop_weed_mount h d id hung v b)
  unfolding stop_weed_mount
  stop_weed_mount-Keeps id hung v true = stop_client-Keeps _ _ none
  stop_weed_mount-Keeps id false v false = Keeps-pure tt
  stop_weed_mount-Keeps id true v false = search (keeps_rules, steady.attempts, stop_client-Keeps)

  pub require_dead-Keeps :
      (s : String) (hung : Bool) (r : Result Bool) → Keeps P (require_dead h d s hung r)
  unfolding require_dead
  require_dead-Keeps s hung (err e) = Keeps-pure tt
  require_dead-Keeps s hung (ok true) = Keeps-pure tt
  require_dead-Keeps s hung (ok false) = search (keeps_rules, is_dead_mount-Keeps, abort-Keeps)

  pub detach_staging-Keeps : (s : String) (hung : Bool) → Keeps P (detach_staging h d s hung)
  unfolding detach_staging
  detach_staging-Keeps s hung =
      search
        (
          keeps_rules,
          recheck-Keeps,
          abort-Keeps,
          steady.observes.asks,
          require_dead-Keeps,
          detach-Keeps steady,
          steady.resets,
          is_path_mounted-Keeps steady.observes,
        )
        depth 12

  pub remount_with-Keeps : (dev p s : String) (ro : Bool) → Keeps P (remount_with h d dev p s ro)
  unfolding remount_with
  remount_with-Keeps dev p s ro = search (keeps_rules, steady.attempts)

  pub remount_all-Keeps : (dev s : String) (ps : Dict Bool) → Keeps P (remount_all h d dev s ps)
  unfolding remount_all
  remount_all-Keeps dev s [] = Keeps-pure tt
  remount_all-Keeps dev s ((p, ro) ∷ ps) =
      Keeps-bind _ _ (remount_with-Keeps dev p s ro)
        (λ _. Keeps-bind _ _ (repair-Keeps true p s) (λ _. remount_all-Keeps dev s ps))

  pub replace_mount-Keeps :
      (id : String) (hung : Bool) (v : Volume) (c : Dict String)
      → Keeps P (replace_mount h d id hung v c)
  unfolding replace_mount
  replace_mount-Keeps id hung v c =
      search
        (
          keeps_rules,
          stop_weed_mount-Keeps,
          detach_staging-Keeps,
          steady.cleans,
          stage_new_volume-Keeps steady,
          tear_down_all-Keeps,
          publish_all-Keeps,
        )
        depth 12
