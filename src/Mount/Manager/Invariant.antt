-- ===== src/Mount/Manager/Invariant.antt =====
-- The invariant of the table of pkg/mountmanager/manager.go between two steps, and its changes.
use forks_seaweedfs_csi_driv.Common.{
  ℕ, ◌+◌, ◌<◌, ◌≡◌, refl, String, Bool, true, false, Option, none, some, eqb, eq_iff, arith,
}
use forks_seaweedfs_csi_driv.Common.Dict.{lookup, insert, erase, lookup-insert, lookup-erase}
use forks_seaweedfs_csi_driv.Mount.Manager.{Manager, MountEntry, Process, update, closed, spawn}

-- The entry names the process.
abbrev pub is_serving : ℕ → Option MountEntry → Bool
is_serving i none = false
is_serving i (some e) = eqb e.process i

pub record Inv (m : Manager) : Type 0 where
  pub tracked :
      (v : String) (e : MountEntry)
      → lookup v m.mounts ≡ some e
      → (e.process < m.next) × ((m.processes e.process).volume ≡ v)
  pub serving :
      (i : ℕ)
      → i < m.next
      → (m.processes i).exited ≡ false
      → (m.processes i).abandoned ≡ false
      → is_serving i (lookup (m.processes i).volume m.mounts) ≡ true
  pub ordered : (i : ℕ) → (m.processes i).done ≡ true → (m.processes i).exited ≡ true

pub entry_of :
    (i : ℕ) (o : Option MountEntry)
    → is_serving i o ≡ true
    → (e : MountEntry) × (o ≡ some e) × (e.process ≡ i)
entry_of i none h = cc
entry_of i (some e) h = (e, refl, ground arith)

-- An entry may go once its process has exited.
pub erase-Inv :
    (v : String) (m : Manager)
    → Inv m
    → ((e : MountEntry) → lookup v m.mounts ≡ some e → (m.processes e.process).exited ≡ true)
    → Inv (record m { mounts = erase v m.mounts })
erase-Inv v m inv gone = record {
  tracked = λ w e h. inv.tracked w e (ground (arith, lookup-erase v w m.mounts));
  serving = λ i lt alive kept.
      let w = (m.processes i).volume in
      let (e, named, same) = entry_of i (lookup w m.mounts) (inv.serving i lt alive kept) in
      ground (arith, lookup-erase v w m.mounts, eq_iff v w, gone e, named, same);
  ordered = inv.ordered;
}

pub close-Inv :
    (i : ℕ) (m : Manager)
    → Inv m
    → Inv (record m { processes = update m.processes i (closed (m.processes i)) })
close-Inv i m inv = record {
  tracked = λ w e h. ground (arith, inv.tracked w e h);
  serving = λ j lt alive kept. ground (arith, inv.serving j);
  ordered = λ j h. ground (arith, inv.ordered j);
}

-- A process that is running when it is created runs under the entry that is recorded for it.
pub record-Inv :
    (v : String) (e : MountEntry) (m : Manager)
    → Inv m
    → lookup v m.mounts ≡ none
    → e.process ≡ m.next
    → Inv (record (spawn v m) { mounts = insert v e m.mounts })
unfolding spawn
record-Inv v e m inv free fresh = record {
  tracked = λ w f h. ground (arith, inv.tracked w f, lookup-insert v w e m.mounts, eq_iff v w);
  serving = λ i lt alive kept. ground (
    arith,
    inv.serving i,
    lookup-insert v (m.processes i).volume e m.mounts,
    lookup-insert v v e m.mounts,
    eq_iff v (m.processes i).volume,
    eq_iff v v,
  );
  ordered = λ i h. ground (arith, inv.ordered i);
}

-- A process that does not serve is gone, or was abandoned.
pub unserved-Inv :
    (v : String) (p : Process) (m : Manager)
    → Inv m
    → (p.exited ≡ false → p.abandoned ≡ true)
    → (p.done ≡ true → p.exited ≡ true)
    → Inv (record m { processes = update m.processes m.next p; next = m.next + 1 })
unserved-Inv v p m inv out order = record {
  tracked = λ w f h. ground (arith, inv.tracked w f);
  serving = λ i lt alive kept. ground (arith, inv.serving i);
  ordered = λ i h. ground (arith, inv.ordered i);
}
