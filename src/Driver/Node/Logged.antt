-- ===== src/Driver/Node/Logged.antt =====
-- An assertion that does not read the history is kept by every call of the system, and so by the
-- operations that only make calls.
use forks_seaweedfs_csi_driv.Common.{String, Bool, true, false, Option, none, some}
use forks_seaweedfs_csi_driv.Common.Failure.{Failure, Result, ok, err}
use forks_seaweedfs_csi_driv.Driver.Host.{
  Host, Driver, Volume, Node, Action, Query, Event, looked_up, dropped_mutex, log, note, attempt,
  try_ask, probe_statfs,
}
use forks_seaweedfs_csi_driv.Driver.Host.Keeps.{Keeps, keeps_rules, Keeps-pure, Keeps-raise}
use forks_seaweedfs_csi_driv.Driver.MountUtil.{
  reset_statfs_probe, cleanup_stale_staging_path, remove_or_raise, remove_if_exists,
  remove_detached, detach_corrupted, cleanup_corrupted_staging_path, remove_unmounted,
  cleanup_present,
}
use forks_seaweedfs_csi_driv.Driver.Volume.{take_down, remove_unstaged}
use forks_seaweedfs_csi_driv.Driver.Node.Steady.{Steady}

module _ (h : Host) (d : Driver) {P : Node → Type 0}
    (logs : (e : Event) (s : Node) → P s → P (log e s)) where
  attempt-Keeps : (a : Action) → Keeps P (attempt h a)
  unfolding attempt
  attempt-Keeps a = record { at = λ s p. logs _ s p }

  ask-Keeps : (q : Query) → Keeps P (try_ask h q)
  unfolding try_ask
  ask-Keeps q = record { at = λ s p. logs _ s p }

  probe-Keeps : (q : String) → Keeps P (probe_statfs h q)
  unfolding probe_statfs
  probe-Keeps q = record { at = λ s p. logs _ s p }

  reset-Keeps : (q : String) → Keeps P (reset_statfs_probe q)
  unfolding reset_statfs_probe note
  reset-Keeps q = record { at = λ s p. logs _ s p }

  note-Keeps : (e : Event) → Keeps P (note e)
  unfolding note
  note-Keeps e = record { at = λ s p. logs _ s p }

  remove_if-Keeps : (p : String) → Keeps P (remove_or_raise h p)
  unfolding remove_or_raise remove_if_exists
  remove_if-Keeps p = search (keeps_rules, attempt-Keeps)

  remove_detached-Keeps :
      (p : String) (e : Failure) (r : Option Failure) → Keeps P (remove_detached h p e r)
  unfolding remove_detached
  remove_detached-Keeps p e none = remove_if-Keeps p
  remove_detached-Keeps p e (some l) = Keeps-raise _

  detach_corrupted-Keeps : (p : String) (r : Option Failure) → Keeps P (detach_corrupted h p r)
  unfolding detach_corrupted
  detach_corrupted-Keeps p none = Keeps-pure tt
  detach_corrupted-Keeps p (some e) = search (keeps_rules, attempt-Keeps, remove_detached-Keeps)

  cleanup_corrupted-Keeps : (p : String) → Keeps P (cleanup_corrupted_staging_path h p)
  unfolding cleanup_corrupted_staging_path
  cleanup_corrupted-Keeps p =
      search (keeps_rules, attempt-Keeps, detach_corrupted-Keeps, reset-Keeps)

  remove_unmounted-Keeps :
      (p : String) (u : Option Failure) (r : Result Bool) → Keeps P (remove_unmounted h p u r)
  unfolding remove_unmounted
  remove_unmounted-Keeps p u (err e) = search (keeps_rules, cleanup_corrupted-Keeps)
  remove_unmounted-Keeps p u (ok true) = Keeps-raise _
  remove_unmounted-Keeps p u (ok false) = search (keeps_rules, remove_if-Keeps, reset-Keeps)

  cleanup_present-Keeps :
      (p : String) (u : Option Failure) (r : Result Bool) → Keeps P (cleanup_present h p u r)
  unfolding cleanup_present
  cleanup_present-Keeps p u (err e) = search (keeps_rules, reset-Keeps, cleanup_corrupted-Keeps)
  cleanup_present-Keeps p u (ok b) = search (keeps_rules, ask-Keeps, remove_unmounted-Keeps)

  cleanup-Keeps : (p : String) → Keeps P (cleanup_stale_staging_path h p)
  unfolding cleanup_stale_staging_path
  cleanup-Keeps p = search (keeps_rules, attempt-Keeps, ask-Keeps, cleanup_present-Keeps)

  remove_unstaged-Keeps : (p : String) (r : Option Failure) → Keeps P (remove_unstaged h d p r)
  unfolding remove_unstaged
  remove_unstaged-Keeps p (some e) = Keeps-raise e
  remove_unstaged-Keeps p none = remove_if-Keeps p

  take_down-Keeps : (v : Volume) (p : String) (b : Bool) → Keeps P (take_down h d v p b)
  unfolding take_down
  take_down-Keeps v p false = search (keeps_rules, attempt-Keeps)
  take_down-Keeps v p true = search (keeps_rules, attempt-Keeps, remove_unstaged-Keeps)

  -- An assertion that does not read the history is steady.
  pub steady_by_log : Steady h d P
  steady_by_log = record {
    attempts = λ a _. attempt-Keeps a;
    observes = record { asks = ask-Keeps; probes = probe-Keeps };
    resets = reset-Keeps;
    looks = λ id. note-Keeps (looked_up id);
    drops = λ id s p. logs (dropped_mutex id) s p;
    cleans = cleanup-Keeps;
    takes_down = take_down-Keeps;
  }
