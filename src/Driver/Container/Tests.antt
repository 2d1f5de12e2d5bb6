-- ===== src/Driver/Container/Tests.antt =====
-- A pod with two containers, one of them on a dead mount.
use forks_seaweedfs_csi_driv.Common.{
  String, ◌≡◌, refl, true, Option, none, List, [], ◌∷◌, map, ◌==◌, if◌then◌else◌, eqb, leb,
}
use forks_seaweedfs_csi_driv.Common.Paths.{join_clean}
use forks_seaweedfs_csi_driv.Common.Decimal.{ℤ, pos, negsuc, parse_int, format_int}
use forks_seaweedfs_csi_driv.Common.Failure.{Failure, Result, ok, err, failure}
use forks_seaweedfs_csi_driv.Driver.Host.Monad.{◌>>=◌}
use forks_seaweedfs_csi_driv.Driver.Container.Entries.{
  Entry, unescape_mount_field, parse_mount_info_reader, mount_entry_at, get_mount_device,
  same_fuse_filesystem, is_fuse_fs, read_only,
}
use forks_seaweedfs_csi_driv.Driver.Container.Escapes.{escape_mount_field}
use forks_seaweedfs_csi_driv.Driver.Container.RoundTrip.{
  Line, words_of, print_line, IsPrintable, parse_mount_info-print,
}
use forks_seaweedfs_csi_driv.Driver.Container.Processes.{
  ProcFs, extract_pod_uid, find_container_pids_for_pod,
}
use forks_seaweedfs_csi_driv.Driver.Container.Machine.{
  errno, clean, is_stale_mount, note, attempt, Kernel,
}
use forks_seaweedfs_csi_driv.Driver.Container.Remount.{remount_via_setns}
use forks_seaweedfs_csi_driv.Driver.Container.Repair.{
  repair_stale_container_mounts, probe, check_path,
}
use forks_seaweedfs_csi_driv.Driver.Container.Guarded.{IsHome}
use forks_seaweedfs_csi_driv.Driver.Container.Held.{held, held-remount_via_setns}
use forks_seaweedfs_csi_driv.Driver.Container.Warrants.{Warrant}
use forks_seaweedfs_csi_driv.Driver.Container.Warranted.{repair_stale_container_mounts-IsHome}
use forks_seaweedfs_csi_driv.Driver.Container.Devices.{get_mount_device-mount_entry_at}
use forks_seaweedfs_csi_driv.Driver.Container.Pods.{OnePerContainer, one_pid_per_container}

unescaped : unescape_mount_field "/a\\040b\\1" ≡ "/a b\\1"
unfolding unescape_mount_field
unescaped = refl

joined : join_clean "/var/lib//kubelet/" "/a/../store/." ≡ "/var/lib/kubelet/store"
unfolding join_clean
joined = refl

uid_found : extract_pod_uid "/var/lib/kubelet/pods/8c-1/volumes/csi" ≡ "8c-1"
unfolding extract_pod_uid
uid_found = refl

same_filer_path :
    same_fuse_filesystem "filer-0:8888:/buckets/pvc-1" "filer-1:8888:/buckets/pvc-1" ≡ true
unfolding same_fuse_filesystem
same_filer_path = refl

-- A mount of the volume on a device.
abbrev mounted : String → String → Entry
mounted device mountpoint = record {
  device = device;
  root = "/";
  mountpoint = mountpoint;
  options = "rw";
  fstype = "fuse.seaweedfs";
  source = "filer:8888:/buckets/pvc-1";
}

abbrev line_of : Entry → Line
line_of e = record {
  id = "36";
  parent = "35";
  entry = e;
  optional = "shared:1" ∷ [];
  super_options = "rw";
}

abbrev staged : Entry
staged = mounted "0:50" "/staging"

abbrev stale : Entry
stale = mounted "0:41" "/my data"

stale-IsPrintable : IsPrintable (line_of stale)
stale-IsPrintable = record {
  id = (refl, λ e. cc);
  parent = (refl, λ e. cc);
  device = (refl, λ e. cc);
  root = (refl, λ e. cc);
  mountpoint = (refl, λ e. cc);
  options = (refl, λ e. cc);
  optional = ((refl, λ e. cc), tt);
  no_dash = ((λ e. cc), tt);
  fstype = (refl, λ e. cc);
  source = (refl, λ e. cc);
  super_options = (refl, λ e. cc);
}

parse_mount_info-print_example :
    parse_mount_info_reader (map print_line (line_of stale ∷ [])) none ≡ ok (stale ∷ [])
parse_mount_info-print_example = parse_mount_info-print (line_of stale ∷ []) (stale-IsPrintable, tt)

get_mount_device-mount_entry_at_example :
    get_mount_device (mounted "0:41" "/staging" ∷ staged ∷ []) "/staging" ≡ ok "0:50"
unfolding mount_entry_at
get_mount_device-mount_entry_at_example =
    get_mount_device-mount_entry_at (mounted "0:41" "/staging" ∷ staged ∷ []) "/staging"

-- Process 1 is the driver, 7 and 8 run in one container of the pod, 9 in another, and 10 in none.
abbrev tables : ℤ → Result (List String × Option Failure)
tables (pos n) = ok (
  if eqb n 1
      then print_line (line_of staged) ∷ []
      else print_line (line_of staged) ∷ print_line (line_of stale) ∷ [],
  none,
)
tables (negsuc n) = err (failure "no such process")

abbrev namespaces : ℤ → Result String
namespaces (pos n) = ok (if leb n 1 then "mnt:[1]" else if leb n 8 then "mnt:[7]" else "mnt:[9]")
namespaces (negsuc n) = err (failure "no such process")

abbrev cgroups : ℤ → Result String
cgroups (pos n) = ok (if leb n 9 then "/kubepods/pod8c_1/app" else "/system.slice")
cgroups (negsuc n) = err (failure "no such process")

abbrev entries_of_proc : List String
entries_of_proc = "1" ∷ "7" ∷ "8" ∷ "9" ∷ "10" ∷ "self" ∷ []

abbrev proc : ProcFs
proc = record {
  names = ok entries_of_proc;
  self_namespace = "mnt:[1]";
  cgroup = cgroups;
  namespace = namespaces;
  mount_table = tables;
}

two_containers : find_container_pids_for_pod proc "8c-1" ≡ ok (pos 7 ∷ pos 9 ∷ [])
unfolding find_container_pids_for_pod parse_int
two_containers = refl

one_pid_per_container_example : OnePerContainer proc "8c-1" entries_of_proc (pos 7 ∷ pos 9 ∷ [])
one_pid_per_container_example =
    one_pid_per_container proc "8c-1" entries_of_proc (pos 7 ∷ pos 9 ∷ []) refl two_containers

-- The stale mount answers in no container but the first.
abbrev kernel : Kernel
kernel = record {
  self = pos 1;
  act = λ past c. none;
  proc = λ past. proc;
  statfs = λ past path. if path == "/proc/7/root/my data" then errno 107 else clean;
}

abbrev publish_path : String
publish_path = "/var/lib/kubelet/pods/8c-1/volumes/csi/mount"

one_repaired : (repair_stale_container_mounts kernel publish_path "/staging" []).0 ≡ ok 1
unfolding repair_stale_container_mounts print_line words_of escape_mount_field extract_pod_uid ◌>>=◌
    parse_mount_info_reader mount_entry_at parse_int find_container_pids_for_pod is_fuse_fs
    same_fuse_filesystem format_int is_stale_mount remount_via_setns read_only unescape_mount_field
    probe check_path note attempt
one_repaired = refl

repair_stale_container_mounts-IsHome_example :
    IsHome
      (Warrant (pos 1) "/staging")
      (repair_stale_container_mounts kernel publish_path "/staging" []).1
repair_stale_container_mounts-IsHome_example =
    repair_stale_container_mounts-IsHome kernel (λ past. refl) "/staging" publish_path [] (tt, refl)

held-remount_via_setns_example :
    held (remount_via_setns kernel (pos 7) "/my data" "/staging" "/" true []).1 ≡ 0
held-remount_via_setns_example =
    held-remount_via_setns kernel (pos 7) "/my data" "/staging" "/" true []
