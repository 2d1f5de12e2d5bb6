-- ===== src/Driver/Container/Held.antt =====
-- The handles and the thread that remountViaSetns of pkg/driver/container_remount_linux.go takes.
use forks_seaweedfs_csi_driv.Common.{
  ℕ, suc, ◌-◌, ◌≡◌, refl, String, Bool, Option, none, some, inl, inr, [], ◌∷◌, Option-cases, arith,
}
use forks_seaweedfs_csi_driv.Common.Decimal.{ℤ}
use forks_seaweedfs_csi_driv.Common.Failure.{Failure}
use forks_seaweedfs_csi_driv.Driver.Host.Monad.{finally, ◌>>=◌}
use forks_seaweedfs_csi_driv.Driver.Host.Keeps.{Keeps, Keeps-bind}
use forks_seaweedfs_csi_driv.Driver.Container.Machine.{
  Call, lock_thread, unlock_thread, unshare_fs, open_tree, open_own_namespace, open_namespace,
  close_tree, close_own_namespace, close_namespace, Event, did, History, Kernel, M, note, attempt,
}
use forks_seaweedfs_csi_driv.Driver.Container.Remount.{
  call_or_raise, call_after, within_namespace, with_own_namespace, with_tree, on_thread,
  remount_via_setns, bind_source,
}
use forks_seaweedfs_csi_driv.Driver.Container.Frames.{within_namespace-Keeps, Keeps-call_or_raise}

-- A call that opens takes a handle if it succeeds; one that closes gives it back in any case.
abbrev by_call : Call → Option Failure → ℕ → ℕ
by_call lock_thread r n = suc n
by_call unlock_thread r n = n - 1
by_call (open_tree source) none n = suc n
by_call close_tree r n = n - 1
by_call open_own_namespace none n = suc n
by_call close_own_namespace r n = n - 1
by_call (open_namespace pid) none n = suc n
by_call close_namespace r n = n - 1
by_call _ _ n = n

abbrev by_event : Event → ℕ → ℕ
by_event (did c r) n = by_call c r n
by_event _ n = n

-- How many file descriptors are open, and locks of the thread held.
abbrev pub held : History → ℕ
held [] = 0
held (e ∷ past) = by_event e (held past)

abbrev Holds : ℕ → History → Type 0
Holds n past = held past ≡ n

module _ (k : Kernel) where
  -- A handle that is opened is closed again.
  balanced :
      (open_it close_it : Call) (text : String) (m : M (Unit {0})) (n : ℕ)
      → by_call open_it none n ≡ suc n
      → ((e : Failure) → by_call open_it (some e) n ≡ n)
      → ((r : Option Failure) → by_call close_it r (suc n) ≡ n)
      → Keeps (Holds (suc n)) m
      → Keeps (Holds n) (call_or_raise k open_it text >>= λ u. finally m (call_after k close_it))
  unfolding call_or_raise call_after ◌>>=◌ attempt
  balanced open_it close_it text m n opened failed closed inner = record {
    at = λ past p. elim (Option-cases (k.act past open_it)) [
      | inl done ↦
          let went : History = did open_it none ∷ past in
          let there = inner.at went (rw (p, opened)) in
          rw done (rw (there, closed (k.act (m went).1 close_it)))
      | inr (e, refused) ↦ rw (refused, p, failed e)
    ];
  }

module _ (k : Kernel) (pid : ℤ) (path staging sub : String) (ro : Bool) where
  within_held : (j : ℕ) → Keeps (Holds j) (within_namespace k pid path staging sub ro)
  within_held j =
      within_namespace-Keeps k pid path staging sub ro (λ r past p. p) (λ r past p. p)
        (λ r past p. p) (λ r past p. p) (λ r past p. p)

  own_held : (j : ℕ) → Keeps (Holds j) (with_own_namespace k pid path staging sub ro)
  unfolding with_own_namespace
  own_held j =
      balanced k (open_namespace pid) close_namespace _ _ j refl (λ e. refl) (λ r. omega arith)
        (within_held (suc j))

  tree_held : (j : ℕ) → Keeps (Holds j) (with_tree k pid path staging sub ro)
  unfolding with_tree
  tree_held j =
      balanced k open_own_namespace close_own_namespace _ _ j refl (λ e. refl) (λ r. omega arith)
        (own_held (suc j))

  thread_held : (j : ℕ) → Keeps (Holds j) (on_thread k pid path staging sub ro)
  unfolding on_thread
  thread_held j =
      Keeps-bind (call_or_raise k unshare_fs _) _
        (Keeps-call_or_raise k unshare_fs _ (λ r past p. p))
        (λ u.
          balanced k (open_tree (bind_source staging sub)) close_tree _ _ j refl (λ e. refl)
            (λ r. omega arith) (tree_held (suc j)))

  -- Whatever calls fail, remountViaSetns ends with as many open descriptors and locks of the thread
  -- as it began with: each that it takes is given back on every path.
  pub held-remount_via_setns :
      (past : History) → held (remount_via_setns k pid path staging sub ro past).1 ≡ held past
  unfolding remount_via_setns note call_after ◌>>=◌ finally
  held-remount_via_setns past =
      let after = (thread_held (suc (held past))).at (did lock_thread none ∷ past) refl in
      rw after (omega arith)
