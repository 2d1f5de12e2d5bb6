-- ===== src/Driver/Container/Processes.antt =====
-- The containers of a pod: extractPodUID and findContainerPIDsForPod of
-- pkg/driver/container_remount_linux.go.
use forks_seaweedfs_csi_driv.Common.{
  String, ◌<>◌, Bool, false, ◌&&◌, ◌||◌, not, Option, none, some, List, [], ◌∷◌, ◌==◌,
  if◌then◌else◌, member,
}
use forks_seaweedfs_csi_driv.Common.Text.{contains, replace_char, split}
use forks_seaweedfs_csi_driv.Common.Decimal.{ℤ, parse_int}
use forks_seaweedfs_csi_driv.Common.Failure.{Failure, Result, ok, err}

uid_of : List String → String
uid_of [] = ""
uid_of (part ∷ []) = ""
uid_of (part ∷ next ∷ parts) =
    let later = uid_of (next ∷ parts) in if part == "pods" then next else later

-- extractPodUID
unfoldable pub extract_pod_uid : String → String
unfolding uid_of
extract_pod_uid publish_path = uid_of (split b'/' publish_path)

-- What /proc shows: its entries, the text of a process's cgroup file, the link that names its mount
-- namespace, and the lines of its mount table with the error that reading them ends with. The
-- driver's own namespace is empty if its link cannot be read.
pub record ProcFs : Type 0 where
  pub names : Result (List String)
  pub self_namespace : String
  pub cgroup : ℤ → Result String
  pub namespace : ℤ → Result String
  pub mount_table : ℤ → Result (List String × Option Failure)

unfoldable pub is_ok_in {ℓ} : {A : Type ℓ} → (A → Bool) → Result A → Bool
is_ok_in test (ok a) = test a
is_ok_in test (err e) = false

unfoldable pub to_option {ℓ} : {A : Type ℓ} → Result A → Option A
to_option (ok a) = some a
to_option (err e) = none

module _ (p : ProcFs) (pod_uid : String) where
  unfoldable pub is_of_pod : ℤ → Bool
  unfolding is_ok_in
  is_of_pod pid =
      is_ok_in (λ text. contains text pod_uid || contains text (replace_char b'-' "_" pod_uid))
        (p.cgroup pid)

  unfoldable pub is_own : String → Bool
  is_own ns = not (p.self_namespace == "") && ns == p.self_namespace

  unfoldable pub of_container : Option String → Option String
  unfolding is_own
  of_container none = none
  of_container (some ns) = if is_own ns then none else some ns

  -- The mount namespace of a process that runs in a container of the pod.
  unfoldable pub container_namespace : ℤ → Option String
  unfolding is_of_pod of_container to_option
  container_namespace pid =
      if is_of_pod pid then of_container (to_option (p.namespace pid)) else none

  unfoldable pub with_pid : ℤ → Option String → Option (ℤ × String)
  with_pid pid none = none
  with_pid pid (some ns) = some (pid, ns)

  -- The process that an entry of /proc names, with its namespace, if it belongs to a container.
  unfoldable pub candidate : Option ℤ → Option (ℤ × String)
  unfolding container_namespace with_pid
  candidate none = none
  candidate (some pid) = with_pid pid (container_namespace pid)

  -- One round of the loop over the entries: `rest` makes the others, with the namespaces seen.
  unfoldable pub one_round : Option (ℤ × String) → List String → (List String → List ℤ) → List ℤ
  one_round none seen rest = rest seen
  one_round (some (pid, ns)) seen rest =
      let others = rest (ns ∷ seen) in if member ns seen then rest seen else pid ∷ others

  unfoldable pub one_per_namespace : List String → List String → List ℤ
  unfolding one_round candidate
  one_per_namespace [] seen = []
  one_per_namespace (name ∷ names) seen =
      one_round (candidate (parse_int name)) seen (one_per_namespace names)

  unfoldable pub from_names : Result (List String) → Result (List ℤ)
  unfolding one_per_namespace
  from_names (ok names) = ok (one_per_namespace names [])
  from_names (err e) = err (record e { text = "read /proc: " <> e.text })

  -- findContainerPIDsForPod
  unfoldable pub find_container_pids_for_pod : Result (List ℤ)
  unfolding from_names
  find_container_pids_for_pod = from_names p.names
