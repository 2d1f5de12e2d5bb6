-- ===== src/Driver/Node/Steady.antt =====
-- What all the node's code but its changes of the volume map keeps. An assertion that the calls of
-- the system keep is kept by stageNewVolume, Volume.Publish, Volume.Unstage and the health probes.
use forks_seaweedfs_csi_driv.Common.{◌≡◌, String, Bool, true, false, Option, none, some}
use forks_seaweedfs_csi_driv.Common.Dict.{Dict}
use forks_seaweedfs_csi_driv.Common.Decimal.{ℤ}
use forks_seaweedfs_csi_driv.Common.Failure.{Failure, Result, ok, err}
use forks_seaweedfs_csi_driv.Driver.Host.{
  Host, Driver, Volume, Node, Action, looked_up, note, load, attempt,
}
use forks_seaweedfs_csi_driv.Driver.Host.Monad.{pure}
use forks_seaweedfs_csi_driv.Driver.Host.Keeps.{Keeps, keeps_rules, Keeps-pure, Keeps-raise}
use forks_seaweedfs_csi_driv.Driver.MountUtil.{
  reset_statfs_probe, cleanup_stale_staging_path, check_mount, check_mount_of,
  detach_dead_mount_point,
}
use forks_seaweedfs_csi_driv.Driver.MountUtil.Removal.{is_removal}
use forks_seaweedfs_csi_driv.Driver.Volume.{
  cleanup_volume_resources, unmount_before, stage, bind_unless, publish, quota, unpublish,
  take_down, unstage,
}
use forks_seaweedfs_csi_driv.Driver.Node.{require, drop_mutex}
use forks_seaweedfs_csi_driv.Driver.Node.Staging.{
  or_invalid_argument, lift, checked_context, quota_failed, apply_quota, stage_new_volume,
}
use forks_seaweedfs_csi_driv.Driver.Node.Probes.{Observer, consult-Keeps}

-- Every call of the system keeps `P`, and so do the two operations that remove a directory.
pub record Steady (h : Host) (d : Driver) (P : Node → Type 0) : Type 0 where
  pub attempts : (a : Action) → is_removal a ≡ false → Keeps P (attempt h a)
  pub observes : Observer h P
  pub resets : (p : String) → Keeps P (reset_statfs_probe p)
  pub looks : (id : String) → Keeps P (note (looked_up id))
  pub drops : (id : String) (s : Node) → P s → P (drop_mutex id s)
  pub cleans : (p : String) → Keeps P (cleanup_stale_staging_path h p)
  pub takes_down : (v : Volume) (p : String) (b : Bool) → Keeps P (take_down h d v p b)

pub load-Keeps : {P : Node → Type 0} (id : String) → Keeps P (load id)
unfolding load
load-Keeps id = record { at = λ s p. p }

pub require-Keeps : {P : Node → Type 0} (b : Bool) (m : String) → Keeps P (require b m)
unfolding require
require-Keeps true m = Keeps-pure tt
require-Keeps false m = Keeps-raise _

pub lift-Keeps : {P : Node → Type 0} {A : Type 0} (r : Result A) → Keeps P (lift r)
unfolding lift
lift-Keeps (ok a) = Keeps-pure a
lift-Keeps (err e) = Keeps-raise e

or_invalid-Keeps : {P : Node → Type 0} (r : Option String) → Keeps P (or_invalid_argument r)
unfolding or_invalid_argument
or_invalid-Keeps none = Keeps-pure tt
or_invalid-Keeps (some m) = Keeps-raise _

module _ {h : Host} {d : Driver} {P : Node → Type 0} (steady : Steady h d P) where
  check_mount_of-Keeps : (p : String) (r : Result Bool) → Keeps P (check_mount_of h p r)
  unfolding check_mount_of
  check_mount_of-Keeps p (ok m) = Keeps-pure m
  check_mount_of-Keeps p (err e) =
      search (keeps_rules, steady.attempts, steady.observes.asks, steady.resets, consult-Keeps)
        depth 8

  pub check_mount-Keeps : (p : String) → Keeps P (check_mount h p)
  unfolding check_mount
  check_mount-Keeps p = search (keeps_rules, steady.observes.asks, check_mount_of-Keeps)

  pub detach-Keeps : (p : String) → Keeps P (detach_dead_mount_point h p)
  unfolding detach_dead_mount_point
  detach-Keeps p = search (keeps_rules, steady.attempts)

  pub cleanup_volume-Keeps : (id : String) → Keeps P (cleanup_volume_resources h d id)
  unfolding cleanup_volume_resources
  cleanup_volume-Keeps id = search (keeps_rules, steady.attempts)

  reset_if_done :
      (p : String) (r : Option Failure)
      → Keeps P (elim r [ none ↦ reset_statfs_probe p | some e ↦ pure tt ])
  reset_if_done p none = steady.resets p
  reset_if_done p (some e) = Keeps-pure tt

  pub unmount_before-Keeps : (p : String) (b : Bool) → Keeps P (unmount_before h d p b)
  unfolding unmount_before
  unmount_before-Keeps p false = Keeps-pure tt
  unmount_before-Keeps p true = search (keeps_rules, steady.attempts, reset_if_done)

  stage-Keeps :
      (p : String) (c : Dict String) (ro : Bool) (v : Volume) → Keeps P (stage h d p c ro v)
  unfolding stage
  stage-Keeps p c ro v =
      search (keeps_rules, steady.attempts, check_mount-Keeps, unmount_before-Keeps) depth 8

  bind_unless-Keeps : (b : Bool) (s t : String) (ro : Bool) → Keeps P (bind_unless h d b s t ro)
  unfolding bind_unless
  bind_unless-Keeps true s t ro = Keeps-pure tt
  bind_unless-Keeps false s t ro = search (keeps_rules, steady.attempts)

  pub publish-Keeps : (s t : String) (ro : Bool) → Keeps P (publish h d s t ro)
  unfolding publish
  publish-Keeps s t ro = search (keeps_rules, check_mount-Keeps, bind_unless-Keeps)

  pub quota-Keeps : (id : String) (size : ℤ) → Keeps P (quota h d id size)
  unfolding quota
  quota-Keeps id size = search (keeps_rules, steady.attempts)

  pub unpublish-Keeps : (t : String) → Keeps P (unpublish h d t)
  unfolding unpublish
  unpublish-Keeps t = search (keeps_rules, steady.attempts, steady.resets)

  pub unstage-Keeps : (p : String) (v : Volume) → Keeps P (unstage h d p v)
  unfolding unstage
  unstage-Keeps p v = search (keeps_rules, steady.takes_down, steady.resets, cleanup_volume-Keeps)

  quota_failed-Keeps :
      (p : String) (v : Volume) (r : Option Failure) → Keeps P (quota_failed h d p v r)
  unfolding quota_failed
  quota_failed-Keeps p v none = Keeps-pure v
  quota_failed-Keeps p v (some e) = search (keeps_rules, unstage-Keeps)

  apply_quota-Keeps : (p : String) (c : Option ℤ) (v : Volume) → Keeps P (apply_quota h d p c v)
  unfolding apply_quota
  apply_quota-Keeps p none v = Keeps-pure v
  apply_quota-Keeps p (some c) v = search (keeps_rules, quota-Keeps, quota_failed-Keeps)

  pub checked_context-Keeps :
      (id : String) (c : Dict String) (r : Result (Dict String)) → Keeps P (checked_context id c r)
  unfolding checked_context
  checked_context-Keeps id c r = search (keeps_rules, lift-Keeps, or_invalid-Keeps) depth 8

  pub stage_new_volume-Keeps :
      (id p : String) (c : Dict String) (ro : Bool) → Keeps P (stage_new_volume h d id p c ro)
  unfolding stage_new_volume
  stage_new_volume-Keeps id p c ro =
      search
        (
          keeps_rules, consult-Keeps, steady.looks, checked_context-Keeps, lift-Keeps,
          steady.attempts, stage-Keeps, apply_quota-Keeps,
        )
        depth 14
