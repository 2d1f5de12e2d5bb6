-- ===== src/Driver/Health/Spared.antt =====
-- What a health check of pkg/driver/health_monitor.go leaves alone.
use forks_seaweedfs_csi_driv.Common.{
  ◌≡◌, refl, ap, ◌∙◌, ℕ, ◌+◌, ◌%◌, ◌^◌, ◌≤◌, ◌<◌, String, Bool, true, false, some, ◌==◌, arith, ◌⊎◌,
  inl, inr,
}
use forks_seaweedfs_csi_driv.Common.Dict.{lookup, insert}
use forks_seaweedfs_csi_driv.Common.Failure.{ok}
use forks_seaweedfs_csi_driv.Driver.Host.{Host, Driver, Volume, Node, load, store}
use forks_seaweedfs_csi_driv.Driver.Host.Monad.{pure, raise, ◌>>=◌}
use forks_seaweedfs_csi_driv.Driver.MountUtil.{Health, healthy, dead, slow}
use forks_seaweedfs_csi_driv.Driver.Volume.{note_unhealthy}
use forks_seaweedfs_csi_driv.Driver.Node.{check_health_unanswered}
use forks_seaweedfs_csi_driv.Driver.Node.Probes.{
  calls, Untouched, observes-Untouched, check_health_unanswered-Keeps,
}
use forks_seaweedfs_csi_driv.Driver.Health.{is_confirmed, require_or_abort}
use forks_seaweedfs_csi_driv.Driver.Health.Recovery.{recheck, recover_known, recover_volume_as}
use forks_seaweedfs_csi_driv.Driver.Health.Sweep.{
  counted, is_tolerated, respond, check_staged, check_known, perform_volume_health_check,
}

-- In nanoseconds.
abbrev pub minute : ℕ
minute = 60000000000

-- The verdict on the volume is no reason to recover it: a slow mount whose failed checks are fewer
-- than three or whose probe is not yet a minute without an answer, or a dead one with fewer than
-- three dead checks in a row.
abbrev pub IsSpared : Health → ℕ → Volume → Type 0
IsSpared healthy unanswered v = ⊥
IsSpared slow unanswered v = (v.unhealthy_streak + 1 < 3) ⊎ (unanswered ≤ minute)
IsSpared dead unanswered v = v.health_fail_count + 1 < 3

-- The volume with the verdict counted on it: one more failed check in a row, in an `int32`, and one
-- more dead one in a row, or none where the mount was only slow. A healthy mount has no failed check.
abbrev pub noted : Health → Volume → Volume
noted healthy v = v
noted slow v = record v {
  health_fail_count = 0;
  unhealthy_streak = (v.unhealthy_streak + 1) % 2 ^ 32;
}
noted dead v = record v {
  health_fail_count = (v.health_fail_count + 1) % 2 ^ 32;
  unhealthy_streak = (v.unhealthy_streak + 1) % 2 ^ 32;
}

-- The mount has answered, or is slow where that is no sign of death, or not for long enough.
abbrev pub IsInconclusive : Bool → Health → ℕ → Type 0
IsInconclusive hung healthy unanswered = Unit
IsInconclusive hung slow unanswered = (hung ≡ false) ⊎ (unanswered ≤ minute)
IsInconclusive hung dead unanswered = ⊥

inconclusive_unconfirmed :
    (hung : Bool) (r : Health) (u : ℕ) → IsInconclusive hung r u → is_confirmed hung r u ≡ false
unfolding is_confirmed
inconclusive_unconfirmed hung healthy u doubt = refl
inconclusive_unconfirmed hung slow u doubt = ground (arith, doubt)
inconclusive_unconfirmed hung dead u doubt = elim doubt [ ]

spared_tolerated :
    (r : Health) (u : ℕ) (v : Volume) → IsSpared r u v → is_tolerated r u (counted r v) ≡ true
unfolding is_tolerated counted note_unhealthy
spared_tolerated healthy u v few = elim few [ ]
spared_tolerated slow u v (inl few) = ground (arith, few)
spared_tolerated slow u v (inr brief) = ground (arith, brief)
spared_tolerated dead u v few = ground (arith, few)

counted_lem : (r : Health) (u : ℕ) (v : Volume) → IsSpared r u v → counted r v ≡ noted r v
unfolding counted note_unhealthy
counted_lem healthy u v few = elim few [ ]
counted_lem slow u v few = refl
counted_lem dead u v few = refl

module _ (h : Host) (d : Driver) where
  respond_spared :
      (id : String) (r : Health) (u : ℕ) (v : Volume) (s : Node)
      → IsSpared r u v
      → (respond h d id r u (counted r v) s).1 ≡ s
  unfolding respond pure
  respond_spared id healthy u v s spared = elim spared [ ]
  respond_spared id slow u v s spared = rw (spared_tolerated slow u v spared) refl
  respond_spared id dead u v s spared = rw (spared_tolerated dead u v spared) refl

  spared :
      (id : String) (v : Volume) (n s : Node) (r : Health) (u : ℕ)
      → check_health_unanswered h v.staged_path n ≡ (ok (r, u), s)
      → IsSpared r u v
      → Untouched n s
      → let after = (check_staged h d id v n).1 in
        (calls after.history ≡ calls n.history) × (after.volumes ≡ insert id (noted r v) n.volumes)
  unfolding check_staged ◌>>=◌ store
  spared id v n s r u e sp q =
      rw (e, respond_spared id r u v (record s { volumes = insert id (counted r v) s.volumes }) sp)
        (
          q.0,
          ap (insert id (counted r v)) (q.1)
              ∙ ap (λ w. insert id w n.volumes) (counted_lem r u v sp),
        )

  -- A health check of a staged volume in the map that finds its mount slow, with fewer than three
  -- failed checks counted on the volume, this one included, or a probe unanswered for at most a minute;
  -- or dead, with fewer than three dead checks counted, this one included: it makes no call that changes
  -- the system. In the map the volume has one failed check more, and after a dead verdict one dead check
  -- more, after a slow one none, both counted in 32 bits; nothing else in the map has changed.
  pub spared_mount_untouched :
      (id : String) (v : Volume) (n : Node) (r : Health) (u : ℕ)
      → lookup id n.volumes ≡ some v
      → (v.staged_path == "") ≡ false
      → (check_health_unanswered h v.staged_path n).0 ≡ ok (r, u)
      → IsSpared r u v
      → let after = (perform_volume_health_check h d id n).1 in
        (calls after.history ≡ calls n.history) × (after.volumes ≡ insert id (noted r v) n.volumes)
  unfolding perform_volume_health_check check_known load ◌>>=◌
  spared_mount_untouched id v n r u known set verdict sp =
      rw (known, set)
        (spared id v n (check_health_unanswered h v.staged_path n).1 r u
          (λ i. (verdict i, (check_health_unanswered h v.staged_path n).1)) sp
          ((check_health_unanswered-Keeps (observes-Untouched h n) v.staged_path).at n
            (refl, refl)))

  unconfirmed :
      (id : String) (hung : Bool) (v : Volume) (n s : Node) (r : Health) (u : ℕ)
      → check_health_unanswered h v.staged_path n ≡ (ok (r, u), s)
      → is_confirmed hung r u ≡ false
      → Untouched n s
      → Untouched n (recover_known h d id hung (some v) n).1
  unfolding recover_known recheck require_or_abort ◌>>=◌ pure raise
  unconfirmed id hung v n s r u e doubt q = rw (e, doubt) q

  -- A recovery looks at the mount again under the volume's mutex. Where it finds the mount alive, or
  -- only slow and not left without an answer for a minute, it gives up: it makes no call that changes
  -- the system, and leaves the map alone.
  pub unconfirmed_recovery_untouched :
      (id : String) (hung : Bool) (v : Volume) (n : Node) (r : Health) (u : ℕ)
      → lookup id n.volumes ≡ some v
      → (check_health_unanswered h v.staged_path n).0 ≡ ok (r, u)
      → IsInconclusive hung r u
      → let after = (recover_volume_as h d id hung n).1 in
        (calls after.history ≡ calls n.history) × (after.volumes ≡ n.volumes)
  unfolding recover_volume_as load ◌>>=◌
  unconfirmed_recovery_untouched id hung v n r u known verdict doubt = rw known (
      unconfirmed id hung v n (check_health_unanswered h v.staged_path n).1 r u
        (λ i. (verdict i, (check_health_unanswered h v.staged_path n).1))
        (inconclusive_unconfirmed hung r u doubt)
        ((check_health_unanswered-Keeps (observes-Untouched h n) v.staged_path).at n (refl, refl)))
