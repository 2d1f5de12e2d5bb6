-- ===== src/Mount/Manager.antt =====
-- The mount service's Manager (pkg/mountmanager/manager.go, types.go, process_linux.go): which weed
-- mount process serves which volume. A call holds the lock of its volume from its first look at the
-- table to its return, so it is one step here; the processes and the watchers take their own steps.
pub mod Invariant
pub mod Mounting
pub mod Unmounting
pub mod Steps
pub mod Calls
use forks_seaweedfs_csi_driv.Common.{
  ℕ, suc, ◌+◌, String, ◌<>◌, Bool, true, false, not, Option, none, some, List, [], ◌∷◌, ◌==◌, eqb,
  if◌then◌else◌,
}
use forks_seaweedfs_csi_driv.Common.Dict.{Dict, lookup, insert, erase}
use forks_seaweedfs_csi_driv.Common.Failure.{Failure, Result, ok, err, failure}
use forks_seaweedfs_csi_driv.Mount.Flags.{WeedMountFlags, filter_mount_args}

pub record MountRequest : Type 0 where
  pub volume_id : String
  pub target_path : String
  pub cache_dir : String
  pub mount_args : List String
  pub local_socket : String
  pub required_flags : List String

-- `process` is the number of the weedMountProcess, in the order of their creation; two entries are
-- the same pointer exactly when they have the same process.
pub record MountEntry : Type 0 where
  pub volume_id : String
  pub target_path : String
  pub cache_dir : String
  pub local_socket : String
  pub process : ℕ

-- A weedMountProcess: its two channels, closed or not. `abandoned` marks one that Mount gave up on
-- and could not stop.
pub record Process : Type 0 where
  pub volume : String
  pub exited : Bool
  pub done : Bool
  pub abandoned : Bool

pub record Manager : Type 0 where
  pub mounts : Dict MountEntry
  pub processes : ℕ → Process
  pub next : ℕ

abbrev pub update : (ℕ → Process) → ℕ → Process → ℕ → Process
update f i p j = if eqb j i then p else f j

-- What stop() meets: the process is done within the grace period, after the kill, or neither.
pub data Stopping : Type 0 where
  in_grace after_kill too_slow : Stopping

-- What startWeedMountProcess meets: the command does not start, the process exits before the mount
-- is up, waitForMount fails with another error, or the mount comes up.
pub data Launch : Type 0 where
  no_start : Failure → Launch
  died : String → Launch
  no_mount : Failure → Stopping → Launch
  up : Launch

-- The answers of the system to one call: the flags of the weed binary (`nil` if they cannot be
-- read), the results of ensureTargetClean and of os.MkdirAll, and the start of the process.
pub record Answers : Type 0 where
  pub flags : Option WeedMountFlags
  pub target : Option Failure
  pub cache : Option Failure
  pub launch : Launch
  pub stopping : Stopping

abbrev closed : Process → Process
closed p = record p { exited = true; done = true }

-- weedMountProcess.stop: `<-p.done` returns at once if the process is done already.
unfoldable pub stop : Stopping → ℕ → Manager → Option Failure × Manager
stop answer i m =
    let gone = record m { processes = update m.processes i (closed (m.processes i)) } in
    if (m.processes i).done then (none, m) else elim answer [
      | in_grace ↦ (none, gone)
      | after_kill ↦ (none, gone)
      | too_slow ↦ (some (failure "timed out waiting for weed mount to stop"), m)
    ]

-- A new process of the volume.
pub spawn : String → Manager → Manager
spawn volume m = record m {
  processes =
      update m.processes m.next
        (record { volume = volume; exited = false; done = false; abandoned = false });
  next = m.next + 1;
}

-- What becomes of a process whose mount did not come up: the failure to stop it is only logged.
abandon : ℕ → Option Failure × Manager → Manager
abandon i (none, m) = m
abandon i (some e, m) = record m {
  processes = update m.processes i (record (m.processes i) { abandoned = true });
}

-- startWeedMountProcess
start_weed_mount : Launch → String → Manager → Result ℕ × Manager
unfolding spawn stop abandon
start_weed_mount (no_start e) volume m = (err (failure ("starting weed mount: " <> e.text)), m)
start_weed_mount (died summary) volume m =
    let s = spawn volume m in
    (
      err (failure summary),
      record s { processes = update s.processes m.next (closed (s.processes m.next)) },
    )
start_weed_mount (no_mount e answer) volume m =
    (err e, abandon m.next (stop answer m.next (spawn volume m)))
start_weed_mount up volume m = (ok m.next, spawn volume m)

-- validateMountRequest
unfoldable pub validate_mount_request : MountRequest → Option Failure
validate_mount_request req =
    if req.volume_id == ""
    then some (failure "volumeId is required")
    else if req.target_path == ""
    then some (failure "targetPath is required")
    else if req.cache_dir == ""
    then some (failure "cacheDir is required")
    else if req.local_socket == ""
    then some (failure "localSocket is required")
    else elim req.mount_args [ [] ↦ some (failure "mountArgs is required") | a ∷ as_ ↦ none ]

-- The arguments that weed is started with.
adapt_args : Option WeedMountFlags → MountRequest → Result (List String)
adapt_args none req = ok req.mount_args
adapt_args (some flags) req = filter_mount_args req.mount_args flags req.required_flags

new_entry : MountRequest → Result ℕ × Manager → Result MountEntry × Manager
new_entry req (err e, m) = (err e, m)
new_entry req (ok i, m) = (
  ok (record {
    volume_id = req.volume_id;
    target_path = req.target_path;
    cache_dir = req.cache_dir;
    local_socket = req.local_socket;
    process = i;
  }),
  m,
)

-- The steps of startMount, with the results of the arguments' adaption, of ensureTargetClean and of
-- os.MkdirAll: the first failure ends it. The guards that validateMountRequest has passed already
-- are left out, and so is the removal of unheld instance caches, which the manager keeps nothing of.
start_with :
    Launch
    → MountRequest
    → Result (List String)
    → Option Failure
    → Option Failure
    → Manager
    → Result MountEntry × Manager
unfolding start_weed_mount new_entry
start_with l req (err e) target cache m = (err e, m)
start_with l req (ok args) (some e) cache m = (err e, m)
start_with l req (ok args) none (some e) m = (err (failure ("creating cache dir: " <> e.text)), m)
start_with l req (ok args) none none m = new_entry req (start_weed_mount l req.volume_id m)

-- startMount
start_mount : Answers → MountRequest → Manager → Result MountEntry × Manager
unfolding adapt_args start_with
start_mount a req m = start_with a.launch req (adapt_args a.flags req) a.target a.cache m

-- m.mounts[req.VolumeID] = entry, and the response.
record_mount : String → Result MountEntry × Manager → Result String × Manager
record_mount volume (err e, m) = (err e, m)
record_mount volume (ok entry, m) =
    (ok entry.local_socket, record m { mounts = insert volume entry m.mounts })

-- A mount of a volume that has no entry.
fresh_mount : Answers → MountRequest → Manager → Result String × Manager
unfolding start_mount record_mount
fresh_mount a req m = record_mount req.volume_id (start_mount a req m)

-- `<-entry.process.done`, then removeMount: the process that has exited finishes its cleanup.
drop_stale : String → ℕ → Manager → Manager
drop_stale volume i m = record m {
  mounts = erase volume m.mounts;
  processes = update m.processes i (closed (m.processes i));
}

-- Mount, with the local socket of the response.
unfoldable pub mount : Answers → MountRequest → Manager → Result String × Manager
unfolding validate_mount_request fresh_mount drop_stale
mount a req m = elim (validate_mount_request req) [
  | some e ↦ (err e, m)
  | none ↦ elim (lookup req.volume_id m.mounts) [
    | none ↦ fresh_mount a req m
    | some entry ↦
        if (m.processes entry.process).exited
        then fresh_mount a req (drop_stale req.volume_id entry.process m)
        else if entry.target_path == req.target_path
        then (ok entry.local_socket, m)
        else (
          err (
              failure
                ("volume " <> (req.volume_id <> (" already mounted at " <> entry.target_path)))),
          m,
        )
  ]
]

-- The end of Unmount: the entry goes only if the process was stopped.
forget : String → Option Failure × Manager → Option Failure × Manager
forget volume (some e, m) = (some e, m)
forget volume (none, m) = (none, record m { mounts = erase volume m.mounts })

-- Unmount. The removal of the cache directory is only logged when it fails.
unfoldable pub unmount : Stopping → String → Manager → Option Failure × Manager
unfolding stop forget
unmount answer volume m =
    if volume == ""
    then (some (failure "volumeId is required"), m)
    else elim (lookup volume m.mounts) [
      | none ↦ (none, m)
      | some entry ↦ forget volume (stop answer entry.process m)
    ]

-- watchProcessExit, once the process of `entry` is done.
unfoldable pub watch_process_exit : String → MountEntry → Manager → Manager
watch_process_exit volume entry m = elim (lookup volume m.mounts) [
  | none ↦ m
  | some existing ↦
      if eqb existing.process entry.process then record m { mounts = erase volume m.mounts } else m
]
