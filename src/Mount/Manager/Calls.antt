-- ===== src/Mount/Manager/Calls.antt =====
-- What a call of Mount or Unmount answers, and what it leaves in the table.
use mathlib.Core.Path.{subst}
use forks_seaweedfs_csi_driv.Common.{
  ℕ, ◌≡◌, ◌∙◌, ◌≢◌, refl, String, inl, inr, false, Option, none, some, List, ◌==◌, eq_refl, eq_iff,
  arith, Option-cases, Bool-cases,
}
use forks_seaweedfs_csi_driv.Common.Dict.{lookup, lookup-insert, lookup-erase}
use forks_seaweedfs_csi_driv.Common.Failure.{Failure, Result, ok, err}
use forks_seaweedfs_csi_driv.Mount.Manager.{
  Manager, MountEntry, MountRequest, Answers, Launch, no_start, died, no_mount, up, Stopping,
  in_grace, after_kill, too_slow, stop, spawn, abandon, start_weed_mount, new_entry, record_mount,
  start_with, start_mount, fresh_mount, drop_stale, validate_mount_request, adapt_args, mount,
  forget, unmount,
}

-- The outcome of a call for a volume: its entry, or its error.
abbrev pub Recorded : MountRequest → Result String × Manager → Type 0
Recorded req (err e, m) = Unit
Recorded req (ok socket, m) =
    (entry : MountEntry) × (lookup req.volume_id m.mounts ≡ some entry)
    × (entry.local_socket ≡ socket)
    × (entry.target_path ≡ req.target_path)
    × ((m.processes entry.process).exited ≡ false)

launch-Recorded :
    (l : Launch) (req : MountRequest) (m : Manager)
    → Recorded req (record_mount req.volume_id (new_entry req (start_weed_mount l req.volume_id m)))
unfolding record_mount new_entry start_weed_mount spawn
launch-Recorded (no_start e) req m = tt
launch-Recorded (died t) req m = tt
launch-Recorded (no_mount e answer) req m = tt
launch-Recorded up req m =
    let entry : MountEntry = record {
      volume_id = req.volume_id;
      target_path = req.target_path;
      cache_dir = req.cache_dir;
      local_socket = req.local_socket;
      process = m.next;
    } in
    (entry, simp (lookup-insert, eq_refl), refl, refl, ground arith)

start-Recorded :
    (l : Launch) (req : MountRequest) (args : Result (List String)) (target cache : Option Failure)
    (m : Manager)
    → Recorded req (record_mount req.volume_id (start_with l req args target cache m))
unfolding record_mount start_with
start-Recorded l req (err e) target cache m = tt
start-Recorded l req (ok args) (some e) cache m = tt
start-Recorded l req (ok args) none (some e) m = tt
start-Recorded l req (ok args) none none m = launch-Recorded l req m

-- If Mount succeeds, the table holds an entry of the volume, at the target that was asked for, whose
-- local socket is the one of the response and whose process has not exited.
pub mount-Recorded : (a : Answers) (req : MountRequest) (m : Manager) → Recorded req (mount a req m)
unfolding mount fresh_mount start_mount
mount-Recorded a req m = elim (Option-cases (validate_mount_request req)) [
  | inr (e, invalid) ↦ rw (invalid, mount) tt
  | inl valid ↦ elim (Option-cases (lookup req.volume_id m.mounts)) [
    | inl free ↦
        rw (valid, mount)
          (rw (free, mount)
            (start-Recorded a.launch req (adapt_args a.flags req) a.target a.cache m))
    | inr (entry, found) ↦
        rw (valid, mount)
          (rw (found, mount)
            (elim (Bool-cases (m.processes entry.process).exited) [
              | inl gone ↦ rw gone (
                  start-Recorded a.launch req (adapt_args a.flags req) a.target a.cache
                    (drop_stale req.volume_id entry.process m))
              | inr live ↦ rw live (elim (Bool-cases (entry.target_path == req.target_path)) [
                | inl same ↦ rw same (entry, found, refl, (eq_iff _ _).0 same, live)
                | inr other ↦ rw other tt
              ])
            ]))
  ]
]

mount_running :
    (a : Answers) (req : MountRequest) (m : Manager) (socket : String)
    → validate_mount_request req ≡ none
    → Recorded req (ok socket, m)
    → mount a req m ≡ (ok socket, m)
unfolding mount
mount_running a req m socket valid (entry, found, answer, place, live) =
    rw (valid, mount) (rw (found, mount) (rw live (rw ((eq_iff _ _).1 place, answer) refl)))

mount-valid :
    (a : Answers) (req : MountRequest) (m m' : Manager) (socket : String)
    → mount a req m ≡ (ok socket, m')
    → validate_mount_request req ≡ none
unfolding mount
mount-valid a req m m' socket done = elim (Option-cases (validate_mount_request req)) [
  | inl valid ↦ valid
  | inr (e, invalid) ↦ cc (rw (invalid, mount) at done)
]

-- Mount is idempotent: a request that has succeeded, sent again before the table or a process changes,
-- gets the same socket, and neither the table nor the processes change, whatever the system answers.
pub mount-mount :
    (a b : Answers) (req : MountRequest) (m m' : Manager) (socket : String)
    → mount a req m ≡ (ok socket, m')
    → mount b req m' ≡ (ok socket, m')
mount-mount a b req m m' socket done =
    mount_running b req m' socket (mount-valid a req m m' socket done)
      (subst (Recorded req) done (mount-Recorded a req m))

stop-mounts : (answer : Stopping) (i : ℕ) (m : Manager) → (stop answer i m).1.mounts ≡ m.mounts
unfolding stop
stop-mounts in_grace i m = ground arith
stop-mounts after_kill i m = ground arith
stop-mounts too_slow i m = ground arith

abandon-mounts : (i : ℕ) (r : Option Failure × Manager) → (abandon i r).mounts ≡ r.1.mounts
unfolding abandon
abandon-mounts i (none, m) = refl
abandon-mounts i (some e, m) = refl

launch-mounts :
    (l : Launch) (v : String) (m : Manager) → (start_weed_mount l v m).1.mounts ≡ m.mounts
unfolding start_weed_mount
launch-mounts (no_start e) v m = refl
launch-mounts (died t) v m = refl
launch-mounts (no_mount e answer) v m = rw (abandon-mounts, stop-mounts) (unfold spawn in refl)
launch-mounts up v m = unfold spawn in refl

module _ (v : String) (req : MountRequest) (other : v ≢ req.volume_id) where
  recorded_elsewhere :
      (r : Result ℕ × Manager)
      → lookup v (record_mount req.volume_id (new_entry req r)).1.mounts ≡ lookup v r.1.mounts
  unfolding record_mount new_entry
  recorded_elsewhere (err e, m) = refl
  recorded_elsewhere (ok i, m) = rw lookup-insert (ground (arith, eq_iff req.volume_id v))

  started_elsewhere :
      (l : Launch) (args : Result (List String)) (target cache : Option Failure) (m : Manager)
      → lookup v (record_mount req.volume_id (start_with l req args target cache m)).1.mounts
        ≡ lookup v m.mounts
  unfolding record_mount start_with
  started_elsewhere l (err e) target cache m = refl
  started_elsewhere l (ok args) (some e) cache m = refl
  started_elsewhere l (ok args) none (some e) m = refl
  started_elsewhere l (ok args) none none m = rw (recorded_elsewhere, launch-mounts) refl

  -- A call of Mount leaves the entries of the other volumes alone.
  pub lookup-mount_ne :
      (a : Answers) (m : Manager) → lookup v (mount a req m).1.mounts ≡ lookup v m.mounts
  unfolding mount fresh_mount start_mount
  lookup-mount_ne a m =
      let afresh = started_elsewhere a.launch (adapt_args a.flags req) a.target a.cache in
      elim (Option-cases (validate_mount_request req)) [
        | inr (e, invalid) ↦ rw (invalid, mount) refl
        | inl valid ↦ elim (Option-cases (lookup req.volume_id m.mounts)) [
          | inl free ↦ rw (valid, mount) (rw (free, mount) (afresh m))
          | inr (entry, found) ↦
              rw (valid, mount)
                (rw (found, mount)
                  (elim (Bool-cases (m.processes entry.process).exited) [
                    | inl gone ↦
                        rw gone
                          (afresh (drop_stale req.volume_id entry.process m) ∙ kept entry.process)
                    | inr live ↦ rw live (elim (Bool-cases (entry.target_path == req.target_path)) [
                      | inl same ↦ rw same refl
                      | inr differs ↦ rw differs refl
                    ])
                  ]))
        ]
      ]
    where
      kept : (i : ℕ) → lookup v (drop_stale req.volume_id i m).mounts ≡ lookup v m.mounts
      kept i = unfold drop_stale in rw lookup-erase (ground (arith, eq_iff req.volume_id v))

-- Unmount that succeeds leaves no entry of the volume; if it fails, the table is as before, so that
-- a later call can stop the process. Either way the other volumes keep their entries.
pub unmount_lem :
    (answer : Stopping) (v : String) (m : Manager)
    → v ≢ ""
    → let (r, m') = unmount answer v m in
      (r ≡ none → lookup v m'.mounts ≡ none)
      × ((e : Failure) → r ≡ some e → m'.mounts ≡ m.mounts)
      × ((w : String) → w ≢ v → lookup w m'.mounts ≡ lookup w m.mounts)
unfolding unmount
unmount_lem answer v m named = elim (Bool-cases (v == "")) [
  | inl empty ↦ absurd (named ((eq_iff v "").0 empty))
  | inr full ↦ elim (Option-cases (lookup v m.mounts)) [
    | inl free ↦ rw full (rw (free, unmount) (λ h. free, λ e h. refl, λ w h. refl))
    | inr (entry, found) ↦ rw full (
        rw (found, unmount)
          (forget_lem (stop answer entry.process m) (stop-mounts answer entry.process m)))
  ]
]
  where
    forget_lem :
        (r : Option Failure × Manager)
        → r.1.mounts ≡ m.mounts
        → ((forget v r).0 ≡ none → lookup v (forget v r).1.mounts ≡ none)
          × ((e : Failure) → (forget v r).0 ≡ some e → (forget v r).1.mounts ≡ m.mounts)
          × ((w : String) → w ≢ v → lookup w (forget v r).1.mounts ≡ lookup w m.mounts)
    forget_lem (none, m') same =
        unfold forget in
        (
          λ h. simp (lookup-erase, eq_refl),
          λ e h. cc,
          λ w h. rw lookup-erase (ground (arith, eq_iff v w)),
        )
    forget_lem (some e, m') same = unfold forget in (λ h. cc, λ f h. same, λ w h. rw same refl)
