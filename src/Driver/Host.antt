-- ===== src/Driver/Host.antt =====
-- The node plugin's state and its dealings with the system. What the system answers to a call may
-- depend on all that happened before, so a host is a function of the history; every call and its
-- answer is recorded there, newest first. The calls are those that pkg/driver makes of the kernel
-- (through package os and k8s.io/mount-utils), of the mount service, of the weed mount's local socket
-- and of the Kubernetes API.
pub mod Monad
pub mod Keeps
pub mod Yields
use forks_seaweedfs_csi_driv.Common.{ℕ, String, Bool, true, false, Option, none, some, List, ◌∷◌}
use forks_seaweedfs_csi_driv.Common.Dict.{Dict, lookup, insert, erase}
use forks_seaweedfs_csi_driv.Common.Decimal.{ℤ}
use forks_seaweedfs_csi_driv.Common.Failure.{Failure, Result, ok, err}
use Monad.{Exec, raise}

-- Calls that return an error at most.
pub data Action : Type 0 where
  unmount lazy_unmount cleanup_mount_point remove remove_all mkdir_all : String → Action
  remove_socket : String → Action
  rename : String → String → Action
  bind : String → String → Bool → Action
  new_client : String → Action
  service_mount : String → String → Dict String → Bool → Action
  service_unmount : String → Action
  configure : String → ℤ → Action
  repair_containers : String → String → Action
  remount_in_containers : String → String → String → Bool → Action

-- Calls that return a Boolean or an error. `is_dir` is os.Stat with FileInfo.IsDir, `present` is
-- os.Lstat, and `has_entries` is os.ReadDir with a test for a listing that is not empty.
pub data Query : Type 0 where
  is_dir present is_mount_point is_likely_not_mount_point has_entries : String → Query

-- A statfs probe: what the system call returned, or nothing within the timeout.
pub data Probe : Type 0 where
  answered : Option Failure → Probe
  timed_out : Probe

pub data Event : Type 0 where
  did : Action → Option Failure → Event
  asked : Query → Result Bool → Event
  probed : String → Probe → Event
  forgot_probe : String → Event
  dropped_mutex : String → Event
  looked_up : String → Event

abbrev pub History : Type 0
History = List Event

-- `beside_error` is the Boolean that a query returns with an error. `late` says that a health check's
-- timeout fires before its probe is done. `probe_age` is how long ago that probe started, and
-- `unanswered` how long the mount has left a statfs probe without an answer, in nanoseconds.
pub record Host : Type 0 where
  pub act : History → Action → Option Failure
  pub query : History → Query → Result Bool
  pub beside_error : History → Query → Bool
  pub statfs : History → String → Probe
  pub late : History → String → Bool
  pub probe_age : History → String → ℕ
  pub unanswered : History → String → ℕ
  pub device : History → String → Result String
  pub capacity : History → String → Result ℤ
  pub persisted : History → String → Result (Dict String)
  pub clock : History → String

-- The fields of SeaweedFsDriver that the node server reads, the system's directory for temporary files,
-- and the hex-encoded SHA-256 of a volume ID.
pub record Driver : Type 0 where
  pub name : String
  pub volume_socket_dir : String
  pub cache_dir : String
  pub temp_dir : String
  pub volume_hash : String → String
  pub kubelet_root_dir : String
  pub kubelet_root_mount : String

-- `unmounter` says that there is one; it asks the mount service to stop the volume's weed mount.
-- The two counters are `int32` bit patterns.
pub record Volume : Type 0 where
  pub volume_id : String
  pub staged_path : String
  pub unmounter : Bool
  pub health_fail_count : ℕ
  pub unhealthy_streak : ℕ
  pub abnormal : Option String
  pub publish_paths : Dict Bool
  pub vol_context : Option (Dict String)
  pub read_only : Bool

pub record Node : Type 0 where
  pub volumes : Dict Volume
  pub history : History

abbrev pub M : Type 0 → Type 0
M A = Exec Node A

abbrev pub log : Event → Node → Node
log e n = record n { history = e ∷ n.history }

-- An event that has no answer.
unfoldable pub note : Event → M (Unit {0})
note e n = (ok tt, log e n)

-- A look at the volume map.
unfoldable pub load : String → M (Option Volume)
load id n = (ok (lookup id n.volumes), n)

unfoldable pub store : String → Volume → M (Unit {0})
store id v n = (ok tt, record n { volumes = insert id v n.volumes })

unfoldable pub delete : String → M (Unit {0})
delete id n = (ok tt, record n { volumes = erase id n.volumes })

-- What the environment says at this point, with nothing recorded.
unfoldable pub consult : {A : Type 0} → (History → A) → M A
consult f n = (ok (f n.history), n)

module _ (h : Host) where
  -- The error is a value.
  unfoldable pub attempt : Action → M (Option Failure)
  attempt a n = let r = h.act n.history a in (ok r, log (did a r) n)

  unfoldable pub try_ask : Query → M (Result Bool)
  try_ask q n = let r = h.query n.history q in (ok r, log (asked q r) n)

  unfoldable pub probe_statfs : String → M Probe
  probe_statfs path n = let r = h.statfs n.history path in (ok r, log (probed path r) n)
