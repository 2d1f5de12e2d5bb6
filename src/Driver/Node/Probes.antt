-- ===== src/Driver/Node/Probes.antt =====
-- The code of the node that only looks at the system: what its questions and probes keep, it keeps.
use forks_seaweedfs_csi_driv.Common.{◌≡◌, String, Bool, true, false, Option, List, [], ◌∷◌}
use forks_seaweedfs_csi_driv.Common.Failure.{Failure, Result, ok, err}
use forks_seaweedfs_csi_driv.Driver.Host.{
  Host, Node, Action, Query, History, did, consult, try_ask, probe_statfs,
}
use forks_seaweedfs_csi_driv.Driver.Host.Keeps.{Keeps, keeps_rules, Keeps-pure, Keeps-raise}
use forks_seaweedfs_csi_driv.Driver.MountUtil.{
  Health, healthy, dead, slow, staging_path_health, is_staging_path_healthy, health_of_stat,
  health_of_mount, is_path_mounted,
}
use forks_seaweedfs_csi_driv.Driver.Node.{
  in_time, probe_in_time, check_health_unanswered, check_health, not_ready, require_healthy_staging,
}

-- The questions and probes keep `P`.
pub record Observer (h : Host) (P : Node → Type 0) : Type 0 where
  pub asks : (q : Query) → Keeps P (try_ask h q)
  pub probes : (p : String) → Keeps P (probe_statfs h p)

pub consult-Keeps : {P : Node → Type 0} {A : Type 0} (f : History → A) → Keeps P (consult f)
unfolding consult
consult-Keeps f = record { at = λ s p. p }

module _ {h : Host} {P : Node → Type 0} (obs : Observer h P) where
  health_of_mount-Keeps : (p : String) (r : Result Bool) → Keeps P (health_of_mount h p r)
  unfolding health_of_mount
  health_of_mount-Keeps p (err e) = Keeps-pure _
  health_of_mount-Keeps p (ok false) = Keeps-pure _
  health_of_mount-Keeps p (ok true) = search (keeps_rules, obs.probes)

  health_of_stat-Keeps : (p : String) (r : Result Bool) → Keeps P (health_of_stat h p r)
  unfolding health_of_stat
  health_of_stat-Keeps p (err e) = Keeps-pure _
  health_of_stat-Keeps p (ok false) = Keeps-pure _
  health_of_stat-Keeps p (ok true) = search (keeps_rules, obs.asks, health_of_mount-Keeps)

  staging_path_health-Keeps : (p : String) → Keeps P (staging_path_health h p)
  unfolding staging_path_health
  staging_path_health-Keeps p = search (keeps_rules, obs.asks, health_of_stat-Keeps)

  pub is_staging_path_healthy-Keeps : (p : String) → Keeps P (is_staging_path_healthy h p)
  unfolding is_staging_path_healthy
  is_staging_path_healthy-Keeps p = search (keeps_rules, staging_path_health-Keeps)

  pub is_path_mounted-Keeps : (p : String) → Keeps P (is_path_mounted h p)
  unfolding is_path_mounted
  is_path_mounted-Keeps p = search (keeps_rules, obs.asks)

  in_time-Keeps : (p : String) (r : Health) → Keeps P (in_time h p r)
  unfolding in_time
  in_time-Keeps p healthy = Keeps-pure _
  in_time-Keeps p dead = Keeps-pure _
  in_time-Keeps p slow = search (keeps_rules, consult-Keeps)

  probe_in_time-Keeps : (p : String) (b : Bool) → Keeps P (probe_in_time h p b)
  unfolding probe_in_time
  probe_in_time-Keeps p true = search (keeps_rules, consult-Keeps)
  probe_in_time-Keeps p false = search (keeps_rules, staging_path_health-Keeps, in_time-Keeps)

  pub check_health_unanswered-Keeps : (p : String) → Keeps P (check_health_unanswered h p)
  unfolding check_health_unanswered
  check_health_unanswered-Keeps p = search (keeps_rules, consult-Keeps, probe_in_time-Keeps)

  pub check_health-Keeps : (p : String) → Keeps P (check_health h p)
  unfolding check_health
  check_health-Keeps p = search (keeps_rules, check_health_unanswered-Keeps)

  not_ready-Keeps : (id p : String) (r : Health) → Keeps P (not_ready h id p r)
  unfolding not_ready
  not_ready-Keeps id p healthy = Keeps-pure tt
  not_ready-Keeps id p dead = Keeps-raise _
  not_ready-Keeps id p slow = Keeps-raise _

  pub require_healthy-Keeps : (id p : String) → Keeps P (require_healthy_staging h id p)
  unfolding require_healthy_staging
  require_healthy-Keeps id p = search (keeps_rules, check_health-Keeps, not_ready-Keeps)

-- The calls that may change the system, with their answers, newest first.
abbrev pub calls : History → List (Action × Option Failure)
calls [] = []
calls (did a r ∷ past) = (a, r) ∷ calls past
calls (e ∷ past) = calls past

-- Neither the system nor the volume map has been changed.
abbrev pub Untouched : Node → Node → Type 0
Untouched n s = (calls s.history ≡ calls n.history) × (s.volumes ≡ n.volumes)

pub observes-Untouched : (h : Host) (n : Node) → Observer h (Untouched n)
unfolding try_ask probe_statfs
observes-Untouched h n = record {
  asks = λ q. record { at = λ s p. p };
  probes = λ q. record { at = λ s p. p };
}
