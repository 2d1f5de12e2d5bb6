-- ===== src/Driver/Container/Membership.antt =====
-- Which processes findContainerPIDsForPod of pkg/driver/container_remount_linux.go counts to a pod.
use mathlib.Core.Path.{subst}
use forks_seaweedfs_csi_driv.Common.{
  String, ◌≡◌, ◌≢◌, refl, ap, ◌∙◌, Bool, true, false, ◌||◌, Option, none, some, ◌⊎◌, inl, inr, ◌==◌,
  if◌then◌else◌, member, Bool-cases, eq_iff, arith,
}
use forks_seaweedfs_csi_driv.Common.Text.{contains, replace_char}
use forks_seaweedfs_csi_driv.Common.Decimal.{ℤ}
use forks_seaweedfs_csi_driv.Common.Failure.{Result, ok, err}
use forks_seaweedfs_csi_driv.Driver.Container.Processes.{
  ProcFs, is_of_pod, is_own, of_container, container_namespace, candidate, with_pid, is_ok_in,
  to_option,
}

-- The process runs in a container of the pod, in the mount namespace `ns`: its cgroup names the pod,
-- with dashes or with underscores, and the namespace is not the driver's own.
pub record RunsIn (p : ProcFs) (pod_uid : String) (pid : ℤ) (ns : String) : Type 0 where
  pub cgroup_text : String
  pub cgroup : p.cgroup pid ≡ ok cgroup_text
  pub named :
      (contains cgroup_text pod_uid ≡ true)
      ⊎ (contains cgroup_text (replace_char b'-' "_" pod_uid) ≡ true)
  pub namespace : p.namespace pid ≡ ok ns
  pub foreign : (p.self_namespace ≡ "") ⊎ (ns ≢ p.self_namespace)

is_ok_in-inv :
    (test : String → Bool) (r : Result String)
    → is_ok_in test r ≡ true
    → (text : String) × (r ≡ ok text) × (test text ≡ true)
unfolding is_ok_in
is_ok_in-inv test (ok text) h = (text, refl, h)
is_ok_in-inv test (err e) h = cc

to_option-inv : (r : Result String) (ns : String) → to_option r ≡ some ns → r ≡ ok ns
unfolding to_option
to_option-inv (ok t) ns h = cc
to_option-inv (err e) ns h = cc

or-inv : (a b : Bool) → a || b ≡ true → (a ≡ true) ⊎ (b ≡ true)
or-inv true b h = inl refl
or-inv false b h = inr h

or-intro : (a b : Bool) → (a ≡ true) ⊎ (b ≡ true) → a || b ≡ true
or-intro a b h = ground arith

unless-inv :
    (b : Bool) (t ns : String) → (if b then none else some t) ≡ some ns → (b ≡ false) × (t ≡ ns)
unless-inv true t ns h = cc
unless-inv false t ns h = (refl, cc)

when-inv :
    (b : Bool) (o : Option String) (ns : String)
    → (if b then o else none) ≡ some ns
    → (b ≡ true) × (o ≡ some ns)
when-inv true o ns h = (refl, h)
when-inv false o ns h = cc

module _ (p : ProcFs) (pod_uid : String) where
  abbrev Foreign : String → Type 0
  Foreign ns = (p.self_namespace ≡ "") ⊎ (ns ≢ p.self_namespace)

  is_own-Foreign : (ns : String) → is_own p pod_uid ns ≡ false → Foreign ns
  unfolding is_own
  is_own-Foreign ns h = elim (Bool-cases (p.self_namespace == "")) [
    | inl hidden ↦ inl ((eq_iff _ _).0 hidden)
    | inr known ↦ inr (ground (arith, eq_iff ns p.self_namespace))
  ]

  Foreign-is_own : (ns : String) → Foreign ns → is_own p pod_uid ns ≡ false
  unfolding is_own
  Foreign-is_own ns (inl hidden) = ground (arith, eq_iff p.self_namespace "")
  Foreign-is_own ns (inr other) = ground (arith, eq_iff ns p.self_namespace)

  of_container-inv :
      (o : Option String) (ns : String)
      → of_container p pod_uid o ≡ some ns
      → (o ≡ some ns) × Foreign ns
  unfolding of_container
  of_container-inv none ns h = cc
  of_container-inv (some t) ns h =
      let (foreign, same) = unless-inv (is_own p pod_uid t) t ns h in
      (ap some same, subst Foreign same (is_own-Foreign t foreign))

  container_namespace-RunsIn :
      (pid : ℤ) (ns : String)
      → container_namespace p pod_uid pid ≡ some ns
      → RunsIn p pod_uid pid ns
  unfolding container_namespace
  container_namespace-RunsIn pid ns h =
      let (member, found) = when-inv (is_of_pod p pod_uid pid) _ ns h in
      let (text, read, test) = is_ok_in-inv _ (p.cgroup pid) (unfold is_of_pod in member) in
      let (link, foreign) = of_container-inv (to_option (p.namespace pid)) ns found in
      record {
        cgroup_text = text;
        cgroup = read;
        named = or-inv _ _ test;
        namespace = to_option-inv (p.namespace pid) ns link;
        foreign = foreign;
      }

  RunsIn-container_namespace :
      (pid : ℤ) (ns : String)
      → RunsIn p pod_uid pid ns
      → container_namespace p pod_uid pid ≡ some ns
  unfolding container_namespace is_of_pod of_container is_ok_in to_option
  RunsIn-container_namespace pid ns r =
      rw (r.cgroup, or-intro _ _ r.named, r.namespace, Foreign-is_own ns r.foreign)

  pub RunsIn-candidate :
      (pid : ℤ) (ns : String)
      → RunsIn p pod_uid pid ns
      → candidate p pod_uid (some pid) ≡ some (pid, ns)
  unfolding candidate
  RunsIn-candidate pid ns r =
      ap (with_pid p pod_uid pid) (RunsIn-container_namespace pid ns r) ∙ unfold with_pid in refl

  with_pid-inv :
      (x pid : ℤ) (o : Option String) (ns : String)
      → with_pid p pod_uid x o ≡ some (pid, ns)
      → (x ≡ pid) × (o ≡ some ns)
  unfolding with_pid
  with_pid-inv x pid none ns h = cc
  with_pid-inv x pid (some t) ns h = (ground arith, ground arith)

  pub candidate-RunsIn :
      (q : Option ℤ) (pid : ℤ) (ns : String)
      → candidate p pod_uid q ≡ some (pid, ns)
      → RunsIn p pod_uid pid ns
  candidate-RunsIn none pid ns h = unfold candidate in cc
  candidate-RunsIn (some x) pid ns h =
      let (same, found) =
        with_pid-inv x pid (container_namespace p pod_uid x) ns (unfold candidate in h) in
      subst (λ y. RunsIn p pod_uid y ns) same (container_namespace-RunsIn x ns found)
