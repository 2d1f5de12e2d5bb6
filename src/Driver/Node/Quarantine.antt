-- ===== src/Driver/Node/Quarantine.antt =====
-- unpublishTarget with its quarantine, and the clean-up of a path that is not known: what they keep.
use forks_seaweedfs_csi_driv.Common.{String, Bool, true, false, Option, none, some}
use forks_seaweedfs_csi_driv.Common.Failure.{Failure, Result, ok, err}
use forks_seaweedfs_csi_driv.Driver.Host.{Host, Driver, Node, M}
use forks_seaweedfs_csi_driv.Driver.Host.Monad.{catch}
use forks_seaweedfs_csi_driv.Driver.Host.Keeps.{
  Keeps, keeps_rules, Keeps-pure, Keeps-raise, Keeps-bind, Keeps-catch,
}
use forks_seaweedfs_csi_driv.Driver.Node.Probes.{consult-Keeps, is_path_mounted-Keeps}
use forks_seaweedfs_csi_driv.Driver.Node.Steady.{Steady}
use forks_seaweedfs_csi_driv.Driver.Node.Release.{
  move_aside, move_filled, move_unmounted, quarantine_below, quarantine_stale_target,
  after_quarantine, quarantine_failed, unpublish_target, cleanup_target, forget_if_cleaned,
}

module _ {h : Host} {d : Driver} {P : Node → Type 0} (steady : Steady h d P) where
  move_aside-Keeps : (p : String) (r : Option Failure) → Keeps P (move_aside h d p r)
  unfolding move_aside
  move_aside-Keeps p (some e) = Keeps-pure _
  move_aside-Keeps p none = search (keeps_rules, consult-Keeps, steady.attempts)

  move_filled-Keeps : (p : String) (b : Bool) → Keeps P (move_filled h d p b)
  unfolding move_filled
  move_filled-Keeps p false = Keeps-pure _
  move_filled-Keeps p true = search (keeps_rules, steady.attempts, move_aside-Keeps)

  move_unmounted-Keeps : (t p : String) (b : Bool) → Keeps P (move_unmounted h d t p b)
  unfolding move_unmounted
  move_unmounted-Keeps t p false = Keeps-pure _
  move_unmounted-Keeps t p true = search (keeps_rules, steady.observes.asks, move_filled-Keeps)

  quarantine_below-Keeps : (t : String) (p : Option String) → Keeps P (quarantine_below h d t p)
  unfolding quarantine_below
  quarantine_below-Keeps t none = Keeps-pure _
  quarantine_below-Keeps t (some p) =
      search (keeps_rules, is_path_mounted-Keeps steady.observes, move_unmounted-Keeps)

  after_quarantine-Keeps :
      (t : String) (e : Failure) (b : Bool) → Keeps P (after_quarantine h d t e b)
  unfolding after_quarantine
  after_quarantine-Keeps t e true = steady.resets t
  after_quarantine-Keeps t e false = Keeps-raise e

  quarantine_failed-Keeps :
      (t : String) (r : Result (Unit {0})) → Keeps P (quarantine_failed h d t r)
  unfolding quarantine_failed quarantine_stale_target
  quarantine_failed-Keeps t (ok u) = Keeps-pure tt
  quarantine_failed-Keeps t (err e) =
      search (keeps_rules, quarantine_below-Keeps, after_quarantine-Keeps)

  pub unpublish_target-Keeps :
      (t : String) (m : M (Unit {0})) → Keeps P m → Keeps P (unpublish_target h d t m)
  unfolding unpublish_target
  unpublish_target-Keeps t m k =
      Keeps-bind (catch m) _ (Keeps-catch m k) (quarantine_failed-Keeps t)

  pub cleanup_target-Keeps : (t : String) → Keeps P (cleanup_target h d t)
  unfolding cleanup_target
  cleanup_target-Keeps t = search (keeps_rules, steady.attempts)

  pub forget-Keeps : (t : String) (r : Result (Unit {0})) → Keeps P (forget_if_cleaned h d t r)
  unfolding forget_if_cleaned
  forget-Keeps t (ok u) = steady.resets t
  forget-Keeps t (err e) = Keeps-pure tt
