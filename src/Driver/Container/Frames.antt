-- ===== src/Driver/Container/Frames.antt =====
-- What the calls of remountViaSetns of pkg/driver/container_remount_linux.go keep.
use forks_seaweedfs_csi_driv.Common.{String, ◌≡◌, refl, Bool, true, false, Option, none, ◌∷◌}
use forks_seaweedfs_csi_driv.Common.Decimal.{ℤ}
use forks_seaweedfs_csi_driv.Common.Failure.{Failure}
use forks_seaweedfs_csi_driv.Driver.Host.Monad.{pure, finally, ◌>>=◌}
use forks_seaweedfs_csi_driv.Driver.Host.Keeps.{
  Keeps, Keeps-pure, Keeps-or_raise, Keeps-map_error, Keeps-bind, Keeps-finally,
}
use forks_seaweedfs_csi_driv.Driver.Container.Machine.{
  Call, lock_thread, unlock_thread, unshare_fs, open_tree, open_own_namespace, open_namespace,
  enter, restore, close_tree, close_own_namespace, close_namespace, detach, move, set_read_only,
  Event, did, History, Kernel, M, note, attempt,
}
use forks_seaweedfs_csi_driv.Driver.Container.Remount.{
  call_or_raise, call_after, set_read_only_if, replace_stale, within_namespace, with_own_namespace,
  with_tree, on_thread, remount_via_setns, within, bind_source,
}

-- The calls that are made in the driver's own namespace.
abbrev pub is_outside : Call → Bool
is_outside (enter pid) = false
is_outside restore = false
is_outside (detach path) = false
is_outside (move path) = false
is_outside (set_read_only path) = false
is_outside _ = true

-- An assertion that no later event can take back.
abbrev pub Grows : (History → Type 0) → Type 0
Grows P = (e : Event) (past : History) → P past → P (e ∷ past)

-- A call leaves an assertion alone, whatever it answers.
abbrev pub Spares : (History → Type 0) → Call → Type 0
Spares P c = (r : Option Failure) (past : History) → P past → P (did c r ∷ past)

module _ (k : Kernel) {P : History → Type 0} where
  Keeps-attempt : (c : Call) → Spares P c → Keeps P (attempt k c)
  unfolding attempt
  Keeps-attempt c g = record { at = λ past p. g (k.act past c) past p }

  pub Keeps-call_or_raise :
      (c : Call) (text : String) → Spares P c → Keeps P (call_or_raise k c text)
  unfolding call_or_raise
  Keeps-call_or_raise c text g =
      Keeps-bind (attempt k c) _ (Keeps-attempt c g)
        (λ r. Keeps-map_error (within text) _ (Keeps-or_raise r (pure tt) (Keeps-pure tt)))

  Keeps-set_read_only :
      (ro : Bool) (path : String)
      → Spares P (set_read_only path)
      → Keeps P (set_read_only_if k ro path)
  unfolding set_read_only_if
  Keeps-set_read_only false path g = Keeps-pure tt
  Keeps-set_read_only true path g =
      Keeps-bind (attempt k (set_read_only path)) _ (Keeps-attempt _ g) (λ r. Keeps-pure tt)

  -- A call that opens something, and a deferred one that closes it.
  pub Keeps-opened :
      (open_it close_it : Call) (text : String) (m : M (Unit {0}))
      → Spares P open_it
      → Spares P close_it
      → Keeps P m
      → Keeps P (call_or_raise k open_it text >>= λ u. finally m (call_after k close_it))
  unfolding call_after
  Keeps-opened open_it close_it text m g h km =
      Keeps-bind (call_or_raise k open_it text) _ (Keeps-call_or_raise open_it text g)
        (λ u. Keeps-finally m _ km (λ past p. h (k.act past close_it) past p))

module _ (k : Kernel) (pid : ℤ) (path staging sub : String) (ro : Bool) {P : History → Type 0} where
  pub replace_stale-Keeps :
      Spares P (detach path)
      → Spares P (move path)
      → Spares P (set_read_only path)
      → Keeps P (replace_stale k pid path staging sub ro)
  unfolding replace_stale
  replace_stale-Keeps d m s = Keeps-bind (attempt k (detach path)) _ (Keeps-attempt k _ d) (λ r.
      Keeps-bind (call_or_raise k (move path) _) _ (Keeps-call_or_raise k _ _ m)
        (λ u. Keeps-set_read_only k ro path s))

  pub within_namespace-Keeps :
      Spares P (detach path)
      → Spares P (move path)
      → Spares P (set_read_only path)
      → Spares P (enter pid)
      → Spares P restore
      → Keeps P (within_namespace k pid path staging sub ro)
  unfolding within_namespace
  within_namespace-Keeps d m s e r =
      Keeps-opened k (enter pid) restore _ _ e r (replace_stale-Keeps d m s)

  -- What is done around the change of namespaces, on the driver's own side.
  module _ (outside : (c : Call) → is_outside c ≡ true → Spares P c) where
    with_own-Keeps :
        Keeps P (within_namespace k pid path staging sub ro)
        → Keeps P (with_own_namespace k pid path staging sub ro)
    unfolding with_own_namespace
    with_own-Keeps m =
        Keeps-opened k (open_namespace pid) close_namespace _ _ (outside (open_namespace pid) refl)
          (outside close_namespace refl) m

    tree-Keeps :
        Keeps P (with_own_namespace k pid path staging sub ro)
        → Keeps P (with_tree k pid path staging sub ro)
    unfolding with_tree
    tree-Keeps m =
        Keeps-opened k open_own_namespace close_own_namespace _ _ (outside open_own_namespace refl)
          (outside close_own_namespace refl) m

    thread-Keeps :
        Keeps P (with_tree k pid path staging sub ro)
        → Keeps P (on_thread k pid path staging sub ro)
    unfolding on_thread
    thread-Keeps m =
        Keeps-bind (call_or_raise k unshare_fs _) _
          (Keeps-call_or_raise k unshare_fs _ (outside unshare_fs refl))
          (λ u.
            Keeps-opened k (open_tree (bind_source staging sub)) close_tree _ _
              (outside (open_tree (bind_source staging sub)) refl) (outside close_tree refl) m)

    pub remount_via_setns-Keeps :
        Keeps P (within_namespace k pid path staging sub ro)
        → Keeps P (remount_via_setns k pid path staging sub ro)
    unfolding remount_via_setns note call_after
    remount_via_setns-Keeps m =
        Keeps-bind (note (did lock_thread none)) _
          (record { at = λ past p. outside lock_thread refl none past p })
          (λ u.
            Keeps-finally (on_thread k pid path staging sub ro) _
              (thread-Keeps (tree-Keeps (with_own-Keeps m)))
              (λ past p. outside unlock_thread refl (k.act past unlock_thread) past p))

-- Nothing that happens takes such an assertion back.
pub remount-Grows :
    (k : Kernel) (pid : ℤ) (path staging sub : String) (ro : Bool) (P : History → Type 0)
    → Grows P
    → Keeps P (remount_via_setns k pid path staging sub ro)
remount-Grows k pid path staging sub ro P g =
    remount_via_setns-Keeps k pid path staging sub ro (λ c h r. g (did c r))
      (within_namespace-Keeps k pid path staging sub ro (λ r. g (did (detach path) r))
        (λ r. g (did (move path) r)) (λ r. g (did (set_read_only path) r))
        (λ r. g (did (enter pid) r)) (λ r. g (did restore r)))
