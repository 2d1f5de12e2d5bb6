-- ===== src/Driver/Container/Pods.antt =====
-- findContainerPIDsForPod of pkg/driver/container_remount_linux.go: one process for each container.
use mathlib.Core.Path.{subst}
use forks_seaweedfs_csi_driv.Common.{
  String, ◌≡◌, ◌≢◌, refl, sym, ap, ◌∙◌, true, false, Option, none, some, ◌⊎◌, inl, inr, List, [],
  ◌∷◌, ◌==◌, member, All, All-weaken, Among, Bool-cases, eq_iff, arith,
}
use forks_seaweedfs_csi_driv.Common.Decimal.{ℤ, parse_int}
use forks_seaweedfs_csi_driv.Common.Failure.{ok}
use forks_seaweedfs_csi_driv.Driver.Container.Processes.{
  ProcFs, one_round, from_names, one_per_namespace, find_container_pids_for_pod,
}
use forks_seaweedfs_csi_driv.Driver.Container.Membership.{
  RunsIn, candidate-RunsIn, RunsIn-candidate,
}

module _ (p : ProcFs) (pod_uid : String) where
  -- The namespace of a process, and that it has not been seen before.
  abbrev Fresh : List String → ℤ → Type 0
  Fresh seen pid = (ns : String) × RunsIn p pod_uid pid ns × (member ns seen ≡ false)

  abbrev pub Distinct : List ℤ → Type 0
  Distinct [] = Unit
  Distinct (x ∷ xs) = All (λ y. p.namespace x ≢ p.namespace y) xs × Distinct xs

  still-Fresh : (ns : String) (seen : List String) (y : ℤ) → Fresh (ns ∷ seen) y → Fresh seen y
  still-Fresh ns seen y (t, runs, new) = (t, runs, ground arith)

  one_round-Fresh :
      (c : Option (ℤ × String)) (seen : List String) (rest : List String → List ℤ)
      → ((pid : ℤ) (ns : String) → c ≡ some (pid, ns) → RunsIn p pod_uid pid ns)
      → ((s : List String) → All (Fresh s) (rest s))
      → All (Fresh seen) (one_round p pod_uid c seen rest)
  unfolding one_round
  one_round-Fresh none seen rest runs k = k seen
  one_round-Fresh (some (pid, ns)) seen rest runs k = elim (Bool-cases (member ns seen)) [
    | inl old ↦ rw old (k seen)
    | inr new ↦ rw new (
      (ns, runs pid ns refl, new),
      All-weaken (Fresh (ns ∷ seen)) (Fresh seen) (rest (ns ∷ seen)) (still-Fresh ns seen)
          (k (ns ∷ seen)),
    )
  ]

  one_per_namespace-Fresh :
      (names seen : List String) → All (Fresh seen) (one_per_namespace p pod_uid names seen)
  unfolding one_per_namespace
  one_per_namespace-Fresh [] seen = tt
  one_per_namespace-Fresh (name ∷ names) seen =
      one_round-Fresh _ seen _ (candidate-RunsIn p pod_uid (parse_int name))
        (one_per_namespace-Fresh names)

  other_namespace :
      (pid : ℤ) (ns : String) (seen : List String)
      → p.namespace pid ≡ ok ns
      → (y : ℤ) → Fresh (ns ∷ seen) y
      → p.namespace pid ≢ p.namespace y
  other_namespace pid ns seen here y (t, runs, new) e =
      ground (arith, eq_iff ns t, here, runs.namespace)

  one_round-Distinct :
      (c : Option (ℤ × String)) (seen : List String) (rest : List String → List ℤ)
      → ((pid : ℤ) (ns : String) → c ≡ some (pid, ns) → RunsIn p pod_uid pid ns)
      → ((s : List String) → All (Fresh s) (rest s))
      → ((s : List String) → Distinct (rest s))
      → Distinct (one_round p pod_uid c seen rest)
  unfolding one_round
  one_round-Distinct none seen rest runs k d = d seen
  one_round-Distinct (some (pid, ns)) seen rest runs k d = elim (Bool-cases (member ns seen)) [
    | inl old ↦ rw old (d seen)
    | inr new ↦ rw new (
      All-weaken (Fresh (ns ∷ seen)) _ (rest (ns ∷ seen))
          (other_namespace pid ns seen (runs pid ns refl).namespace) (k (ns ∷ seen)),
      d (ns ∷ seen),
    )
  ]

  one_per_namespace-Distinct :
      (names seen : List String) → Distinct (one_per_namespace p pod_uid names seen)
  unfolding one_per_namespace
  one_per_namespace-Distinct [] seen = tt
  one_per_namespace-Distinct (name ∷ names) seen =
      one_round-Distinct _ seen _ (candidate-RunsIn p pod_uid (parse_int name))
        (one_per_namespace-Fresh names) (one_per_namespace-Distinct names)

  -- The namespace has been seen, or one of the processes runs in it.
  abbrev pub Covered : String → List String → List ℤ → Type 0
  Covered ns seen pids =
      (member ns seen ≡ true) ⊎ ((x : ℤ) × Among x pids × (p.namespace x ≡ ok ns))

  later-Covered :
      (c : Option (ℤ × String)) (seen : List String) (rest : List String → List ℤ) (ns : String)
      → ((pid : ℤ) (t : String) → c ≡ some (pid, t) → RunsIn p pod_uid pid t)
      → ((s : List String) → Covered ns s (rest s))
      → Covered ns seen (one_round p pod_uid c seen rest)
  unfolding one_round
  later-Covered none seen rest ns runs k = k seen
  later-Covered (some (pid, t)) seen rest ns runs k = elim (Bool-cases (member t seen)) [
    | inl old ↦ rw old (k seen)
    | inr new ↦ rw new (grown (k (t ∷ seen)))
  ]
    where
      grown : Covered ns (t ∷ seen) (rest (t ∷ seen)) → Covered ns seen (pid ∷ rest (t ∷ seen))
      grown (inr (x, m, e)) = inr (x, inr m, e)
      grown (inl old) = elim (Bool-cases (t == ns)) [
        | inl same ↦ inr (pid, inl refl, (runs pid t refl).namespace ∙ ap ok ((eq_iff t ns).0 same))
        | inr other ↦ inl (ground arith)
      ]

  now-Covered :
      (seen : List String) (rest : List String → List ℤ) (pid : ℤ) (ns : String)
      → RunsIn p pod_uid pid ns
      → Covered ns seen (one_round p pod_uid (some (pid, ns)) seen rest)
  unfolding one_round
  now-Covered seen rest pid ns r = elim (Bool-cases (member ns seen)) [
    | inl old ↦ inl old
    | inr new ↦ rw new (inr (pid, inl refl, r.namespace))
  ]

  -- A process of a container, whose namespace has not been seen, is represented.
  covered :
      (names seen : List String) (name : String) (pid : ℤ) (ns : String)
      → Among name names
      → parse_int name ≡ some pid
      → RunsIn p pod_uid pid ns
      → Covered ns seen (one_per_namespace p pod_uid names seen)
  unfolding one_per_namespace
  covered [] seen name pid ns m e r = absurd m
  covered (n ∷ names) seen name pid ns (inl same) e r =
      rw (same, e, RunsIn-candidate p pod_uid pid ns r)
        (now-Covered seen (one_per_namespace p pod_uid names) pid ns r)
  covered (n ∷ names) seen name pid ns (inr m) e r =
      later-Covered _ seen _ ns (candidate-RunsIn p pod_uid (parse_int n))
        (λ s. covered names s name pid ns m e r)

-- A list of processes each of which runs in a container of the pod, no two in one mount namespace,
-- with one for every container that the entries of /proc show.
pub OnePerContainer : ProcFs → String → List String → List ℤ → Type 0
OnePerContainer p pod_uid names pids =
    All (λ pid. (ns : String) × RunsIn p pod_uid pid ns) pids
    × Distinct p pod_uid pids
    × ((name : String) (pid : ℤ) (ns : String)
        → Among name names
        → parse_int name ≡ some pid
        → RunsIn p pod_uid pid ns
        → (x : ℤ) × Among x pids × (p.namespace x ≡ ok ns))

unseen :
    (p : ProcFs) (pod_uid ns : String) (pids : List ℤ)
    → Covered p pod_uid ns [] pids
    → (x : ℤ) × Among x pids × (p.namespace x ≡ ok ns)
unseen p pod_uid ns pids (inl h) = cc
unseen p pod_uid ns pids (inr h) = h

-- When /proc can be read and findContainerPIDsForPod succeeds, it names processes that run in
-- containers of the pod, no two in one mount namespace, and one for the namespace of every process in
-- /proc that runs in a container of the pod.
pub one_pid_per_container :
    (p : ProcFs) (pod_uid : String) (names : List String) (pids : List ℤ)
    → p.names ≡ ok names
    → find_container_pids_for_pod p pod_uid ≡ ok pids
    → OnePerContainer p pod_uid names pids
unfolding find_container_pids_for_pod OnePerContainer
one_pid_per_container p pod_uid names pids read found =
    subst (OnePerContainer p pod_uid names) (cc (sym (ap (from_names p pod_uid) read) ∙ found)) (
      All-weaken (Fresh p pod_uid []) _ _ (λ pid (ns, r, new). (ns, r))
          (one_per_namespace-Fresh p pod_uid names []),
      one_per_namespace-Distinct p pod_uid names [],
      λ name pid ns m e r. unseen p pod_uid ns _ (covered p pod_uid names [] name pid ns m e r),
    )
