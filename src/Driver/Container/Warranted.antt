-- ===== src/Driver/Container/Warranted.antt =====
-- Which mounts inside containers repairStaleContainerMounts of
-- pkg/driver/container_remount_linux.go replaces.
use forks_seaweedfs_csi_driv.Common.{
  ℕ, ◌+◌, String, ◌≡◌, refl, Bool, true, false, not, none, ◌⊎◌, inl, inr, List, [], ◌∷◌, ◌==◌,
  Among, Bool-cases,
}
use forks_seaweedfs_csi_driv.Common.Decimal.{ℤ}
use forks_seaweedfs_csi_driv.Common.Failure.{Result, ok, err}
use forks_seaweedfs_csi_driv.Driver.Host.Monad.{pure, catch, ◌>>=◌}
use forks_seaweedfs_csi_driv.Driver.Host.Keeps.{
  Keeps, Keeps-pure, Keeps-catch, Keeps-bind, Keeps-if,
}
use forks_seaweedfs_csi_driv.Driver.Container.Entries.{Entry, is_fuse_fs, mount_entry_at, read_only}
use forks_seaweedfs_csi_driv.Driver.Container.Processes.{extract_pod_uid}
use forks_seaweedfs_csi_driv.Driver.Container.Machine.{
  restore, Statfs, errno, listed, probed, forgot_probe, History, Kernel, note, is_stale_mount,
}
use forks_seaweedfs_csi_driv.Driver.Container.Remount.{remount_via_setns}
use forks_seaweedfs_csi_driv.Driver.Container.Repair.{
  parse_mount_info, check_path, record_table, or_empty, read_table, probe, pids_of, is_other_mount,
  count_repaired, replace_dead, repair_entry, repair_entries, repair_pid, repair_pids, repair_from,
  entry_in, repair_pod, repair_stale_container_mounts,
}
use forks_seaweedfs_csi_driv.Driver.Container.Frames.{Grows, remount-Grows}
use forks_seaweedfs_csi_driv.Driver.Container.Guarded.{IsHome, Rule, remount-IsHome}
use forks_seaweedfs_csi_driv.Driver.Container.Warrants.{
  Warrant, Warrant-Grows, is_stale-inv, is_other-inv,
}

module _ (k : Kernel) (restores : (past : History) → k.act past restore ≡ none)
    (staging_path : String) where
  abbrev R : Rule
  R = Warrant k.self staging_path

  -- What holds throughout, and what was learnt on the way.
  abbrev Calm : (History → Type 0) → History → Type 0
  Calm K past = IsHome R past × K past

  module _ (K : History → Type 0) (grows : Grows K) (pid : ℤ) (e : Entry) where
    abbrev Warranted : History → Type 0
    Warranted past = IsHome R past × K past × R pid e.mountpoint past

    remounted :
        Keeps Warranted (remount_via_setns k pid e.mountpoint staging_path e.root (read_only e))
    remounted = record {
      at = λ past (home, known, w). (
        remount-IsHome k R pid e.mountpoint staging_path e.root (read_only e)
            (Warrant-Grows _ _ _ _) restores past w home,
        (remount-Grows k pid e.mountpoint staging_path e.root (read_only e) K grows).at past known,
        (remount-Grows k pid e.mountpoint staging_path e.root (read_only e) (R pid e.mountpoint)
              (Warrant-Grows _ _ _ _)).at
            past w,
      );
    }

    counted : (path : String) (r : Result (Unit {0})) → Keeps Warranted (count_repaired k path r)
    unfolding count_repaired note
    counted path (err f) = Keeps-pure 0
    counted path (ok u) =
        Keeps-bind (note (forgot_probe path)) _
          (record {
            at = λ past (home, known, w).
                (((tt, home.0), home.1), grows _ past known, Warrant-Grows _ _ _ _ _ past w);
          })
          (λ v. Keeps-pure 1)

    replaced : Keeps Warranted (replace_dead k staging_path pid e true)
    unfolding replace_dead
    replaced =
        Keeps-bind (catch (remount_via_setns k pid e.mountpoint staging_path e.root (read_only e)))
          _ (Keeps-catch _ remounted) (counted (check_path pid e.mountpoint))

    module _
        (learn : (past : History) (n : ℕ)
          → K past
          → (n ≡ 107) ⊎ (n ≡ 103)
          → R pid e.mountpoint (probed (check_path pid e.mountpoint) (errno n) ∷ past)) where
      answered :
          (r : Statfs) (past : History)
          → Calm K past
          → Calm K
              (replace_dead k staging_path pid e
                (is_stale_mount r)
                (probed (check_path pid e.mountpoint) r ∷ past)).1
      answered r past (home, known) = elim (Bool-cases (is_stale_mount r)) [
        | inl stale ↦
            let (n, same, number) = is_stale-inv r stale in
            let now : Warranted (probed (check_path pid e.mountpoint) (errno n) ∷ past) =
              (((tt, home.0), home.1), grows _ past known, learn past n known number) in
            let after = replaced.at _ now in rw stale (rw same (after.0, after.1))
        | inr alive ↦
            rw alive (unfold replace_dead pure in (((tt, home.0), home.1), grows _ past known))
      ]

      looked_at : Keeps (Calm K) (repair_entry k staging_path pid e true)
      unfolding repair_entry probe ◌>>=◌
      looked_at = record {
        at = λ past c. answered (k.statfs past (check_path pid e.mountpoint)) past c;
      }

  -- The staging mount as the driver read it.
  module _ (own_table : List Entry) (staging : Entry)
      (on_top : mount_entry_at own_table staging_path ≡ ok staging) where
    abbrev Own : History → Type 0
    Own past = Among (listed k.self own_table) past

    abbrev Read : ℤ → List Entry → History → Type 0
    Read pid table past = Own past × Among (listed pid table) past

    repair_entry-Calm :
        (pid : ℤ) (table : List Entry) (e : Entry)
        → Among e table
        → (other : Bool) → is_other_mount k staging e ≡ other
        → Keeps (Calm (Read pid table)) (repair_entry k staging_path pid e other)
    repair_entry-Calm pid table e m false o = unfold repair_entry in Keeps-pure 0
    repair_entry-Calm pid table e m true o =
        let (fuse, device, source) = is_other-inv k staging e o in
        looked_at (Read pid table) (λ x past (own, read). (inr own, inr read)) pid e
          (λ past n (own, read) number. record {
            own_table = own_table;
            own_read = inr own;
            staging = staging;
            on_top = on_top;
            table = table;
            read = inr read;
            entry = e;
            entry_listed = m;
            at_path = refl;
            is_fuse = fuse;
            other_device = device;
            same_source = source;
            number = n;
            probed_dead = inl refl;
            dead = number;
          })

    repair_entries-Calm :
        (pid : ℤ) (table entries : List Entry)
        → ((e : Entry) → Among e entries → Among e table)
        → Keeps (Calm (Read pid table)) (repair_entries k staging staging_path pid entries)
    unfolding repair_entries
    repair_entries-Calm pid table [] sub = Keeps-pure 0
    repair_entries-Calm pid table (e ∷ entries) sub =
        Keeps-bind (repair_entry k staging_path pid e (is_other_mount k staging e)) _
          (repair_entry-Calm pid table e (sub e (inl refl)) _ refl)
          (λ n.
            Keeps-bind (repair_entries k staging staging_path pid entries) _
              (repair_entries-Calm pid table entries (λ x m. sub x (inr m)))
              (λ m. Keeps-pure (n + m)))

    -- A table that was read, or an error.
    repair_table-Calm :
        (pid : ℤ) (r : Result (List Entry)) (past : History)
        → Calm Own past
        → Calm Own
            (repair_entries k staging staging_path pid (or_empty r) (record_table pid r past)).1
    repair_table-Calm pid (ok table) past (home, own) =
        let after =
          (repair_entries-Calm pid table table (λ e m. m)).at (listed pid table ∷ past)
            (((tt, home.0), home.1), (inr own, inl refl)) in
        (after.0, after.1.0)
    repair_table-Calm pid (err f) past c = unfold repair_entries pure in c

    repair_pid-Calm : (pid : ℤ) → Keeps (Calm Own) (repair_pid k staging staging_path pid)
    unfolding repair_pid read_table ◌>>=◌
    repair_pid-Calm pid = record {
      at = λ past c. repair_table-Calm pid (parse_mount_info (k.proc past) pid) past c;
    }

    repair_pids-Calm : (pids : List ℤ) → Keeps (Calm Own) (repair_pids k staging staging_path pids)
    unfolding repair_pids
    repair_pids-Calm [] = Keeps-pure 0
    repair_pids-Calm (pid ∷ pids) =
        Keeps-bind (repair_pid k staging staging_path pid) _ (repair_pid-Calm pid) (λ n.
          Keeps-bind (repair_pids k staging staging_path pids) _ (repair_pids-Calm pids)
            (λ m. Keeps-pure (n + m)))

    repair_from-Calm :
        (pod_uid : String) → Keeps (Calm Own) (repair_from k staging_path pod_uid (ok staging))
    unfolding repair_from pids_of
    repair_from-Calm pod_uid = Keeps-if (not (is_fuse_fs staging.fstype)) _ _ (Keeps-pure 0) (
        Keeps-bind (pids_of k pod_uid) _ (record { at = λ past c. c })
          (λ pids. repair_pids-Calm (or_empty pids)))

  from_table :
      (pod_uid : String) (r : Result (List Entry)) (got : Result Entry) (past : History)
      → entry_in k staging_path r ≡ got
      → IsHome R past
      → IsHome R (repair_from k staging_path pod_uid got (record_table k.self r past)).1
  from_table pod_uid (ok table) (ok staging) past e home =
      let after =
        (repair_from-Calm table staging (unfold entry_in in e) pod_uid).at
          (listed k.self table ∷ past) (((tt, home.0), home.1), inl refl) in
      after.0
  from_table pod_uid (ok table) (err f) past e home =
      unfold repair_from pure in ((tt, home.0), home.1)
  from_table pod_uid (err f) (ok staging) past e home = unfold entry_in in cc
  from_table pod_uid (err f) (err g) past e home = unfold repair_from pure in home

  repair_pod-IsHome : (pod_uid : String) → Keeps (IsHome R) (repair_pod k staging_path pod_uid)
  unfolding repair_pod read_table ◌>>=◌
  repair_pod-IsHome pod_uid = record {
    at = λ past home. from_table pod_uid (parse_mount_info (k.proc past) k.self) _ past refl home;
  }

  -- When a thread can always return to its own mount namespace, repairStaleContainerMounts leaves it
  -- there, and detaches, moves or makes read-only a mount only inside a process's namespace and with a
  -- warrant: the driver read in its own mount table which mount is staged, read the mount in the
  -- process's table as another FUSE mount of the same source on another device, and found its
  -- connection gone with a probe (ENOTCONN or ECONNABORTED).
  pub repair_stale_container_mounts-IsHome :
      (publish_path : String) (past : History)
      → IsHome (Warrant k.self staging_path) past
      → IsHome
          (Warrant k.self staging_path)
          (repair_stale_container_mounts k publish_path staging_path past).1
  unfolding repair_stale_container_mounts
  repair_stale_container_mounts-IsHome publish_path past home =
      (Keeps-if (extract_pod_uid publish_path == "") (pure 0)
          (repair_pod k staging_path (extract_pod_uid publish_path)) (Keeps-pure 0)
          (repair_pod-IsHome (extract_pod_uid publish_path))).at
        past home
