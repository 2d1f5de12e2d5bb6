-- ===== src/Mount/Manager/Steps.antt =====
-- Runs of the mount service of pkg/mountmanager/manager.go: Mount and Unmount calls, processes that
-- exit, and watchers, in any order.
use forks_seaweedfs_csi_driv.Common.{ℕ, ◌<◌, ◌≡◌, refl, String, true, false, some, [], arith}
use forks_seaweedfs_csi_driv.Common.Dict.{lookup, lookup-nil}
use forks_seaweedfs_csi_driv.Mount.Manager.Invariant.{Inv, entry_of}
use forks_seaweedfs_csi_driv.Mount.Manager.Mounting.{mount-Inv}
use forks_seaweedfs_csi_driv.Mount.Manager.Unmounting.{unmount-Inv, watch-Inv}
use forks_seaweedfs_csi_driv.Mount.Manager.{
  Manager, MountEntry, MountRequest, Answers, Stopping, update, mount, unmount, watch_process_exit,
}

-- The steps of the mount service: calls of any clients, processes that exit and then finish their
-- cleanup, and the watcher of a process that is done.
pub data Step (m : Manager) : Manager → Type 0 where
  mounts : (a : Answers) (req : MountRequest) → Step m (mount a req m).1
  unmounts : (answer : Stopping) (v : String) → Step m (unmount answer v m).1
  exits :
      (i : ℕ)
      → Step m
          (record m { processes = update m.processes i (record (m.processes i) { exited = true }) })
  finishes :
      (i : ℕ)
      → (m.processes i).exited ≡ true
      → Step m
          (record m { processes = update m.processes i (record (m.processes i) { done = true }) })
  watches :
      (v : String) (entry : MountEntry)
      → (m.processes entry.process).done ≡ true
      → Step m (watch_process_exit v entry m)

pub data Reach (s : Manager) : Manager → Type 0 where
  here : Reach s s
  next : {t u : Manager} → Reach s t → Step t u → Reach s u

Step-Inv : {m m' : Manager} → Step m m' → Inv m → Inv m'
Step-Inv {m} (mounts a req) inv = mount-Inv a req m inv
Step-Inv {m} (unmounts answer v) inv = unmount-Inv answer v m inv
Step-Inv {m} (exits i) inv = record {
  tracked = λ w e h. ground (arith, inv.tracked w e h);
  serving = λ j lt alive kept. ground (arith, inv.serving j);
  ordered = λ j h. ground (arith, inv.ordered j);
}
Step-Inv {m} (finishes i exited) inv = record {
  tracked = λ w e h. ground (arith, inv.tracked w e h);
  serving = λ j lt alive kept. ground (arith, inv.serving j);
  ordered = λ j h. ground (arith, inv.ordered j);
}
Step-Inv {m} (watches v entry done) inv = watch-Inv v entry m inv done

Reach-Inv : {s m : Manager} → Inv s → Reach s m → Inv m
Reach-Inv h here = h
Reach-Inv h (next r st) = Step-Inv st (Reach-Inv h r)

abbrev pub initial : Manager
initial = record {
  mounts = [];
  processes = λ i. record { volume = ""; exited = true; done = true; abandoned = false };
  next = 0;
}

initial-Inv : Inv initial
initial-Inv = record {
  tracked = λ v e h. cc (lookup-nil {V = MountEntry} v);
  serving = λ i lt alive kept. cc;
  ordered = λ i h. refl;
}

-- From an empty table, by calls, exits and watchers in any order: two weed mount processes that run
-- for the same volume are one, unless Mount gave one of them up because it could not stop it; and
-- the table names it under its volume.
pub one_process_per_volume :
    {m : Manager} (i j : ℕ)
    → Reach initial m
    → i < m.next
    → j < m.next
    → ((m.processes i).exited ≡ false) × ((m.processes i).abandoned ≡ false)
    → ((m.processes j).exited ≡ false) × ((m.processes j).abandoned ≡ false)
    → (m.processes i).volume ≡ (m.processes j).volume
    → (i ≡ j)
      × ((e : MountEntry) × (lookup (m.processes i).volume m.mounts ≡ some e) × (e.process ≡ i))
one_process_per_volume {m} i j r hi hj li lj same =
    let inv = Reach-Inv initial-Inv r in
    let (e, found, names) = entry_of i _ (inv.serving i hi li.0 li.1) in
    let (f, found', names') = entry_of j _ (inv.serving j hj lj.0 lj.1) in
    (ground arith, (e, found, names))
