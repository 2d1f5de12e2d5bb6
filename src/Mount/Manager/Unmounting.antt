-- ===== src/Mount/Manager/Unmounting.antt =====
-- Unmount and the watchers of pkg/mountmanager/manager.go, and the invariant of the table.
use forks_seaweedfs_csi_driv.Common.{
  ℕ, ◌≡◌, refl, String, inl, inr, true, Option, none, some, ◌==◌, eqb, arith, Option-cases,
  Bool-cases,
}
use forks_seaweedfs_csi_driv.Common.Dict.{lookup}
use forks_seaweedfs_csi_driv.Common.Failure.{Failure}
use forks_seaweedfs_csi_driv.Mount.Manager.{
  Manager, MountEntry, Stopping, in_grace, after_kill, too_slow, stop, forget, unmount,
  watch_process_exit,
}
use forks_seaweedfs_csi_driv.Mount.Manager.Invariant.{Inv, erase-Inv, close-Inv}
use forks_seaweedfs_csi_driv.Mount.Manager.Mounting.{gone, if-Inv}

stop-Inv : (answer : Stopping) (i : ℕ) (m : Manager) → Inv m → Inv (stop answer i m).1
unfolding stop
stop-Inv in_grace i m inv = if-Inv (m.processes i).done _ _ inv (close-Inv i m inv)
stop-Inv after_kill i m inv = if-Inv (m.processes i).done _ _ inv (close-Inv i m inv)
stop-Inv too_slow i m inv = if-Inv (m.processes i).done _ _ inv inv

-- A process that was stopped has exited, and the table is as before.
stop_lem :
    (answer : Stopping) (i : ℕ) (m : Manager)
    → Inv m
    → ((stop answer i m).1.mounts ≡ m.mounts)
      × ((stop answer i m).0 ≡ none → ((stop answer i m).1.processes i).exited ≡ true)
unfolding stop
stop_lem in_grace i m inv = ground (arith, inv.ordered i)
stop_lem after_kill i m inv = ground (arith, inv.ordered i)
stop_lem too_slow i m inv = ground (arith, inv.ordered i)

forget-Inv :
    (v : String) (r : Option Failure) (m : Manager)
    → Inv m
    → (r ≡ none
        → (e : MountEntry) → lookup v m.mounts ≡ some e
        → (m.processes e.process).exited ≡ true)
    → Inv (forget v (r, m)).1
unfolding forget
forget-Inv v (some e) m inv gone = inv
forget-Inv v none m inv gone = erase-Inv v m inv (gone refl)

-- A call of Unmount.
pub unmount-Inv :
    (answer : Stopping) (v : String) (m : Manager) → Inv m → Inv (unmount answer v m).1
unfolding unmount
unmount-Inv answer v m inv = if-Inv (v == "") _ _ inv (elim (Option-cases (lookup v m.mounts)) [
  | inl free ↦ rw (free, unmount) inv
  | inr (entry, found) ↦
      let (same, exits) = stop_lem answer entry.process m inv in
      rw (found, unmount)
        (forget-Inv v (stop answer entry.process m).0 (stop answer entry.process m).1
          (stop-Inv answer entry.process m inv) (λ r e h. ground (arith, found, exits r, same)))
])

pub watch-Inv :
    (v : String) (entry : MountEntry) (m : Manager)
    → Inv m
    → (m.processes entry.process).done ≡ true
    → Inv (watch_process_exit v entry m)
unfolding watch_process_exit
watch-Inv v entry m inv done = elim (Option-cases (lookup v m.mounts)) [
  | inl free ↦ rw (free, watch_process_exit) inv
  | inr (existing, found) ↦
      rw (found, watch_process_exit)
        (elim (Bool-cases (eqb existing.process entry.process)) [
          | inl same ↦
              rw same (erase-Inv v m inv (λ e h. ground (arith, found, inv.ordered entry.process)))
          | inr other ↦ rw other inv
        ])
]
