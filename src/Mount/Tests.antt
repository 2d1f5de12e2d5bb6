-- ===== src/Mount/Tests.antt =====
-- The properties of the mount service at concrete inputs.
use forks_seaweedfs_csi_driv.Common.{
  ◌≡◌, ◌≢◌, refl, ◌↔◌, ℕ, ◌<◌, ◌≤◌, String, true, false, none, some, List, [], ◌∷◌, ◌++◌, arith,
  eq_iff, member, All, length,
}
use forks_seaweedfs_csi_driv.Common.Dict.{lookup, insert, erase}
use forks_seaweedfs_csi_driv.Common.Failure.{Failure, ok, err}
use forks_seaweedfs_csi_driv.Mount.Flags.{
  WeedMountFlags, split_at_mount, is_accepted, is_required, filter_mount_args, sift,
  mount_flag_name,
}
use forks_seaweedfs_csi_driv.Mount.Flags.Filtering.{filter_mount_args_ok, filter_mount_args_error}
use forks_seaweedfs_csi_driv.Mount.Output.{
  Line, no_output, add_all, join_lines, summary, LineWriter, write,
}
use forks_seaweedfs_csi_driv.Mount.Output.Summary.{IsAbridged, summary_lem}
use forks_seaweedfs_csi_driv.Common.Text.{bytes}
use forks_seaweedfs_csi_driv.Common.Decimal.{format_nat}
use forks_seaweedfs_csi_driv.Mount.Output.Lines.{lines_of, write_total, write-write}
use forks_seaweedfs_csi_driv.Mount.Manager.{
  MountRequest, MountEntry, Process, Manager, Answers, up, in_grace, mount, unmount,
}
use forks_seaweedfs_csi_driv.Mount.Manager.Steps.{
  here, next, mounts, initial, one_process_per_volume,
}
use forks_seaweedfs_csi_driv.Mount.Manager.Calls.{
  Recorded, mount-Recorded, mount-mount, lookup-mount_ne, unmount_lem,
}

abbrev request : MountRequest
request = record {
  volume_id = "data";
  target_path = "/stage";
  cache_dir = "/cache/data";
  mount_args = "mount" ∷ "-dir=/stage" ∷ "-novel=1" ∷ [];
  local_socket = "/run/data.sock";
  required_flags = [];
}

abbrev answers : Answers
answers = record { flags = none; target = none; cache = none; launch = up; stopping = in_grace }

-- The manager while one weed mount process runs for the volume.
abbrev entry_of_data : MountEntry
entry_of_data = record {
  volume_id = "data";
  target_path = "/stage";
  cache_dir = "/cache/data";
  local_socket = "/run/data.sock";
  process = 0;
}

abbrev running : Process
running = record { volume = "data"; exited = false; done = false; abandoned = false }

abbrev serving : Manager
serving = record { mounts = ("data", entry_of_data) ∷ []; processes = λ i. running; next = 1 }

abbrev first_process : ℕ
first_process = 0

abbrev stage_path : String
stage_path = "/stage"

-- The manager after its first mount.
abbrev mounted : Manager
mounted = (mount answers request initial).1

mounted_next : 0 < mounted.next
unfolding mount lookup insert
mounted_next = omega arith

mounted_live : ((mounted.processes 0).exited ≡ false) × ((mounted.processes 0).abandoned ≡ false)
unfolding mount lookup insert
mounted_live = (refl, refl)

one_process_per_volume_example :
    (first_process ≡ first_process)
    × ((e : MountEntry) × (lookup (mounted.processes 0).volume mounted.mounts ≡ some e)
        × (e.process ≡ first_process))
one_process_per_volume_example =
    one_process_per_volume 0 0 (next here (mounts answers request)) mounted_next mounted_next
      mounted_live mounted_live refl

mount-Recorded_example : Recorded request (mount answers request initial)
mount-Recorded_example = mount-Recorded answers request initial

served : lookup "data" serving.mounts ≡ some entry_of_data
unfolding lookup
served = refl

-- The manager before and after a mount that replaces a process that has exited.
abbrev stopped : Manager
stopped = record serving { processes = λ i. record running { exited = true; done = true } }

abbrev remounted : Manager
remounted = (mount answers request stopped).1

remounts : mount answers request stopped ≡ (ok "/run/data.sock", remounted)
unfolding mount lookup insert erase
remounts = refl

mount-mount_example : mount answers request remounted ≡ (ok "/run/data.sock", remounted)
mount-mount_example =
    mount-mount answers answers request stopped remounted "/run/data.sock" remounts

lookup-mount_ne_example :
    lookup "logs" (mount answers request serving).1.mounts ≡ lookup "logs" serving.mounts
lookup-mount_ne_example =
    lookup-mount_ne "logs" request (λ e. ground (arith, (eq_iff "logs" "data").1 e)) answers serving

unmount_lem_example :
    let (r, m) = unmount in_grace "data" serving in
    (r ≡ none → lookup "data" m.mounts ≡ none)
    × ((e : Failure) → r ≡ some e → m.mounts ≡ serving.mounts)
    × ((w : String) → w ≢ "data" → lookup w m.mounts ≡ lookup w serving.mounts)
unmount_lem_example =
    unmount_lem in_grace "data" serving (λ e. ground (arith, (eq_iff "data" "").1 e))

-- A weed binary that knows `dir` only.
abbrev old_weed : WeedMountFlags
old_weed = record { defined = "dir" ∷ []; version = "3.80" }

abbrev args : List String
args = "-v=2" ∷ "mount" ∷ "-dir=/stage" ∷ "-novel=1" ∷ []

args_split : split_at_mount args ≡ some ("-v=2" ∷ "mount" ∷ [], "-dir=/stage" ∷ "-novel=1" ∷ [])
unfolding split_at_mount
args_split = refl

args_filtered : filter_mount_args args old_weed [] ≡ ok ("-v=2" ∷ "mount" ∷ "-dir=/stage" ∷ [])
unfolding filter_mount_args split_at_mount sift is_accepted is_required mount_flag_name
args_filtered = refl

filter_mount_args_ok_example :
    (kept : List String) × (("-v=2" ∷ "mount" ∷ "-dir=/stage" ∷ [])
      ≡ ("-v=2" ∷ "mount" ∷ []) ++ kept)
    × All (λ a. is_accepted old_weed a ≡ true) kept
    × ((a : String)
        → member a ("-dir=/stage" ∷ "-novel=1" ∷ []) ≡ true
        → is_required [] a ≡ true
        → member a kept ≡ true)
filter_mount_args_ok_example = filter_mount_args_ok args old_weed [] args_split args_filtered

filter_mount_args_error_example : ((e : Failure) × (filter_mount_args args old_weed [] ≡ err e)) ↔ (
    (a : String) × (member a ("-dir=/stage" ∷ "-novel=1" ∷ []) ≡ true)
    × (is_accepted old_weed a ≡ false)
    × (is_required [] a ≡ true))
filter_mount_args_error_example = filter_mount_args_error args old_weed [] args_split

abbrev twelve : List Line
twelve =
    (49 ∷ [])
    ∷ (50 ∷ [])
    ∷ (51 ∷ [])
    ∷ (52 ∷ [])
    ∷ (53 ∷ [])
    ∷ (54 ∷ [])
    ∷ (55 ∷ [])
    ∷ (56 ∷ [])
    ∷ (57 ∷ [])
    ∷ (65 ∷ [])
    ∷ (66 ∷ [])
    ∷ (67 ∷ [])
    ∷ []

two_omitted :
    summary (add_all twelve no_output)
    ≡ bytes "1\n2\n3\n4\n5\n... (2 lines omitted) ...\n8\n9\nA\nB\nC"
unfolding summary add_all format_nat
two_omitted = refl

summary_lem_example :
    let text = summary (add_all twelve no_output) in
    (twelve ≡ [] → text ≡ bytes "no output")
    × (0 < length twelve → length twelve ≤ 10 → text ≡ join_lines twelve)
    × (10 < length twelve → IsAbridged twelve text)
summary_lem_example = summary_lem twelve

abbrev half_line : LineWriter
half_line = record { buf = 104 ∷ []; added = [] }

write_total_example : (w : LineWriter) × (write (105 ∷ 10 ∷ 106 ∷ []) half_line ≡ some w)
write_total_example = write_total (105 ∷ 10 ∷ 106 ∷ []) half_line

write-write_example :
    (w : LineWriter) × (write (105 ∷ 13 ∷ []) half_line ≡ some w)
    × (write (10 ∷ 106 ∷ []) w ≡ some (record { buf = 106 ∷ []; added = (104 ∷ 105 ∷ []) ∷ [] }))
    × (write ((105 ∷ 13 ∷ []) ++ (10 ∷ 106 ∷ [])) half_line
        ≡ some (record { buf = 106 ∷ []; added = (104 ∷ 105 ∷ []) ∷ [] }))
unfolding lines_of
write-write_example =
    write-write (105 ∷ 13 ∷ []) (10 ∷ 106 ∷ []) (104 ∷ []) [] (omega arith) (omega arith)
