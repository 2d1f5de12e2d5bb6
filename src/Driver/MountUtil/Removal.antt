-- ===== src/Driver/MountUtil/Removal.antt =====
-- What cleanupStaleStagingPath and its callers look at before they call os.Remove.
use forks_seaweedfs_csi_driv.Common.{
  ◌≡◌, refl, String, Bool, true, false, Option, none, some, [], ◌∷◌,
}
use forks_seaweedfs_csi_driv.Common.Failure.{Failure, Result, ok, err, is_corrupted, is_not_exist}
use forks_seaweedfs_csi_driv.Driver.Host.{
  Host, Node, did, asked, Action, Query, lazy_unmount, remove, service_unmount, is_mount_point,
  History, note, attempt, try_ask, probe_statfs, consult, log,
}
use forks_seaweedfs_csi_driv.Driver.Host.Monad.{raise, ◌>>=◌}
use forks_seaweedfs_csi_driv.Driver.Host.Keeps.{
  Keeps, bind_at, keeps_rules, Keeps-pure, Keeps-raise, Keeps-if, Keeps-or_raise,
}
use forks_seaweedfs_csi_driv.Driver.MountUtil.{
  reset_statfs_probe, remove_or_raise, remove_of, remove_if_exists, remove_detached,
  detach_corrupted, cleanup_corrupted_staging_path, remove_unmounted, cleanup_present,
  cleanup_stale_staging_path,
}

-- The last thing that happened allows the removal of the path: it was seen not to be a mount point,
-- or was detached, or the mount service has stopped the weed mount of its volume.
abbrev pub Allows : String → History → Type 0
Allows path [] = ⊥
Allows path (did (lazy_unmount p) none ∷ past) = p ≡ path
Allows path (did (service_unmount v) none ∷ past) = Unit
Allows path (asked (is_mount_point p) (ok false) ∷ past) = p ≡ path
Allows path (e ∷ past) = ⊥

-- Every os.Remove in the history was allowed by what came immediately before it.
abbrev pub IsGuarded : History → Type 0
IsGuarded [] = Unit
IsGuarded (did (remove p) r ∷ past) = Allows p past × IsGuarded past
IsGuarded (e ∷ past) = IsGuarded past

abbrev pub Guarded : Node → Type 0
Guarded n = IsGuarded n.history

abbrev pub is_removal : Action → Bool
is_removal (remove p) = true
is_removal a = false

pub consult-Guarded : {A : Type 0} (f : History → A) → Keeps Guarded (consult f)
unfolding consult
consult-Guarded f = record { at = λ s g. g }

pub reset-Guarded : (p : String) → Keeps Guarded (reset_statfs_probe p)
unfolding reset_statfs_probe note
reset-Guarded p = record { at = λ s g. g }

module _ (h : Host) where
  pub attempt-Guarded : (a : Action) → is_removal a ≡ false → Keeps Guarded (attempt h a)
  unfolding attempt
  attempt-Guarded (remove p) e = cc
  attempt-Guarded _ e = record { at = λ s g. g }

  pub try_ask-Guarded : (q : Query) → Keeps Guarded (try_ask h q)
  unfolding try_ask
  try_ask-Guarded q = record { at = λ s g. g }

  pub probe_statfs-Guarded : (p : String) → Keeps Guarded (probe_statfs h p)
  unfolding probe_statfs
  probe_statfs-Guarded p = record { at = λ s g. g }

  pub remove_or_raise-Guarded :
      (p : String) (n : Node) → Allows p n.history → Guarded n → Guarded (remove_or_raise h p n).1
  unfolding remove_or_raise remove_if_exists attempt ◌>>=◌
  remove_or_raise-Guarded p n allowed g =
      let n' : Node = (remove_if_exists h p n).1 in
      (Keeps-or_raise {P = Guarded} (remove_of h (h.act n.history (remove p))) _ (Keeps-pure tt)).at
        n' (allowed, g)

  remove_detached-Guarded :
      (p : String) (e : Failure) (r : Option Failure) (n : Node)
      → Guarded n
      → Guarded (remove_detached h p e r (log (did (lazy_unmount p) r) n)).1
  unfolding remove_detached raise
  remove_detached-Guarded p e none n g = remove_or_raise-Guarded p _ refl g
  remove_detached-Guarded p e (some l) n g = g

  detach_corrupted-Guarded :
      (p : String) (r : Option Failure) → Keeps Guarded (detach_corrupted h p r)
  unfolding detach_corrupted ◌>>=◌ attempt
  detach_corrupted-Guarded p none = Keeps-pure tt
  detach_corrupted-Guarded p (some e) = record {
    at = λ s g. remove_detached-Guarded p e (h.act s.history (lazy_unmount p)) s g;
  }

  cleanup_corrupted-Guarded : (p : String) → Keeps Guarded (cleanup_corrupted_staging_path h p)
  unfolding cleanup_corrupted_staging_path
  cleanup_corrupted-Guarded p =
      search (keeps_rules, attempt-Guarded, detach_corrupted-Guarded, reset-Guarded)

  remove_unmounted-Guarded :
      (p : String) (u : Option Failure) (r : Result Bool) (n : Node)
      → Guarded n
      → Guarded (remove_unmounted h p u r (log (asked (is_mount_point p) r) n)).1
  unfolding remove_unmounted raise
  remove_unmounted-Guarded p u (err e) n g =
      (Keeps-if (is_corrupted e) _ _ (cleanup_corrupted-Guarded p) (Keeps-raise _)).at _ g
  remove_unmounted-Guarded p u (ok true) n g = g
  remove_unmounted-Guarded p u (ok false) n g =
      bind_at _ _ _ (remove_or_raise-Guarded p _ refl g) (λ _. reset-Guarded p)

  cleanup_present-Guarded :
      (p : String) (u : Option Failure) (r : Result Bool) → Keeps Guarded (cleanup_present h p u r)
  unfolding cleanup_present ◌>>=◌ try_ask
  cleanup_present-Guarded p u (err e) =
      Keeps-if (is_not_exist e) _ _ (reset-Guarded p)
        (Keeps-if (is_corrupted e) _ _ (cleanup_corrupted-Guarded p) (Keeps-raise e))
  cleanup_present-Guarded p u (ok found) = record {
    at = λ s g. remove_unmounted-Guarded p u (h.query s.history (is_mount_point p)) s g;
  }

  -- Whatever the system answers, cleanupStaleStagingPath removes a directory only directly after it
  -- was seen not to be a mount point, or was detached: no live mount is ever deleted through.
  pub cleanup_stale_staging_path-Guarded :
      (p : String) → Keeps Guarded (cleanup_stale_staging_path h p)
  unfolding cleanup_stale_staging_path
  cleanup_stale_staging_path-Guarded p =
      search (keeps_rules, attempt-Guarded, try_ask-Guarded, cleanup_present-Guarded)
