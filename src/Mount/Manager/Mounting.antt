-- ===== src/Mount/Manager/Mounting.antt =====
-- Mount of pkg/mountmanager/manager.go, and the invariant of the table.
use mathlib.Core.Path.{fun_ext}
use forks_seaweedfs_csi_driv.Common.{
  ℕ, ◌+◌, ◌≡◌, refl, String, inl, inr, Bool, true, false, Option, none, some, List, ◌==◌, eq_refl,
  arith, if◌then◌else◌, Option-cases, ap,
}
use forks_seaweedfs_csi_driv.Common.Dict.{lookup, lookup-erase}
use forks_seaweedfs_csi_driv.Common.Failure.{Failure, Result, ok, err, failure}
use forks_seaweedfs_csi_driv.Mount.Manager.{
  Manager, MountEntry, MountRequest, Process, Answers, Stopping, Launch, no_start, died, no_mount,
  up, in_grace, after_kill, too_slow, update, closed, stop, spawn, abandon, start_weed_mount,
  new_entry, record_mount, start_with, start_mount, fresh_mount, drop_stale, mount,
  validate_mount_request, adapt_args,
}
use forks_seaweedfs_csi_driv.Mount.Manager.Invariant.{
  Inv, erase-Inv, close-Inv, record-Inv, unserved-Inv,
}

update-update : (f : ℕ → Process) (i : ℕ) (p q : Process) → update (update f i p) i q ≡ update f i q
update-update f i p q = fun_ext λ j. ground arith

abbrev pub gone : String → Process
gone v = record { volume = v; exited = true; done = true; abandoned = false }

abbrev left : String → Process
left v = record { volume = v; exited = false; done = false; abandoned = true }

abbrev stop_new : Stopping → String → Manager → Option Failure × Manager
stop_new too_slow v m = (some (failure "timed out waiting for weed mount to stop"), spawn v m)
stop_new _ v m =
    (none, record (spawn v m) { processes = update (spawn v m).processes m.next (gone v) })

-- A process that was just started is not done.
stop-spawn :
    (answer : Stopping) (v : String) (m : Manager)
    → stop answer m.next (spawn v m) ≡ stop_new answer v m
unfolding stop spawn
stop-spawn in_grace v m = ground arith
stop-spawn after_kill v m = ground arith
stop-spawn too_slow v m = ground arith

abandon-spawn :
    (e : Failure) (v : String) (m : Manager)
    → abandon m.next (some e, spawn v m)
      ≡ record m { processes = update m.processes m.next (left v); next = m.next + 1 }
unfolding abandon spawn
abandon-spawn e v m =
    ap (λ p. record m { processes = p; next = m.next + 1 }) (fun_ext λ j. ground arith)

launch-Inv :
    (l : Launch) (req : MountRequest) (m : Manager)
    → Inv m
    → lookup req.volume_id m.mounts ≡ none
    → Inv (record_mount req.volume_id (new_entry req (start_weed_mount l req.volume_id m))).1
unfolding record_mount new_entry start_weed_mount
launch-Inv (no_start e) req m inv free = inv
launch-Inv (died t) req m inv free =
    rw update-update (unserved-Inv req.volume_id _ m inv (λ h. cc) (λ h. refl))
launch-Inv (no_mount e in_grace) req m inv free =
    rw (stop-spawn in_grace, abandon, update-update)
      (unserved-Inv req.volume_id (gone req.volume_id) m inv (λ h. cc) (λ h. refl))
launch-Inv (no_mount e after_kill) req m inv free =
    rw (stop-spawn after_kill, abandon, update-update)
      (unserved-Inv req.volume_id (gone req.volume_id) m inv (λ h. cc) (λ h. refl))
launch-Inv (no_mount e too_slow) req m inv free =
    rw (stop-spawn too_slow) (
      rw abandon-spawn (unserved-Inv req.volume_id (left req.volume_id) m inv (λ h. refl) (λ h. h)))
launch-Inv up req m inv free = record-Inv req.volume_id _ m inv free refl

start-Inv :
    (l : Launch) (req : MountRequest) (args : Result (List String)) (target cache : Option Failure)
    (m : Manager)
    → Inv m
    → lookup req.volume_id m.mounts ≡ none
    → Inv (record_mount req.volume_id (start_with l req args target cache m)).1
unfolding record_mount start_with
start-Inv l req (err e) target cache m inv free = inv
start-Inv l req (ok args) (some e) cache m inv free = inv
start-Inv l req (ok args) none (some e) m inv free = inv
start-Inv l req (ok args) none none m inv free = launch-Inv l req m inv free

fresh_mount-Inv :
    (a : Answers) (req : MountRequest) (m : Manager)
    → Inv m
    → lookup req.volume_id m.mounts ≡ none
    → Inv (fresh_mount a req m).1
unfolding fresh_mount start_mount
fresh_mount-Inv a req m inv free =
    start-Inv a.launch req (adapt_args a.flags req) a.target a.cache m inv free

drop_stale-Inv :
    (v : String) (e : MountEntry) (m : Manager)
    → Inv m
    → lookup v m.mounts ≡ some e
    → Inv (drop_stale v e.process m)
unfolding drop_stale
drop_stale-Inv v e m inv found =
    let m' = record m {
      processes = update m.processes e.process (closed (m.processes e.process));
    } in
    erase-Inv v m' (close-Inv e.process m inv) (λ f h. ground (arith, found))

pub if-Inv {ℓ} :
    {A : Type ℓ} (b : Bool) (x y : A × Manager) → Inv x.1 → Inv y.1 → Inv (if b then x else y).1
if-Inv true x y h k = h
if-Inv false x y h k = k

-- A call of Mount, whatever the system answers.
pub mount-Inv : (a : Answers) (req : MountRequest) (m : Manager) → Inv m → Inv (mount a req m).1
unfolding mount
mount-Inv a req m inv = elim (Option-cases (validate_mount_request req)) [
  | inr (e, invalid) ↦ rw (invalid, mount) inv
  | inl valid ↦ elim (Option-cases (lookup req.volume_id m.mounts)) [
    | inl free ↦ rw (valid, mount) (rw (free, mount) (fresh_mount-Inv a req m inv free))
    | inr (entry, found) ↦
        rw (valid, mount)
          (rw (found, mount)
            (if-Inv (m.processes entry.process).exited _ _
              (fresh_mount-Inv a req (drop_stale req.volume_id entry.process m)
                (drop_stale-Inv req.volume_id entry m inv found)
                (dropped req.volume_id entry.process m))
              (if-Inv (entry.target_path == req.target_path) _ _ inv inv)))
  ]
]
  where
    dropped : (v : String) (i : ℕ) (m : Manager) → lookup v (drop_stale v i m).mounts ≡ none
    dropped v i m = unfold drop_stale in simp (lookup-erase, eq_refl)
