-- ===== src/Driver/Health/Recovered.antt =====
-- What recoverVolumeAs of pkg/driver/health_monitor.go leaves in the volume map.
use forks_seaweedfs_csi_driv.Common.{
  ◌≡◌, refl, sym, ap, String, Bool, true, false, Option, none, some, [], ◌∷◌, ◌==◌, if◌then◌else◌,
}
use forks_seaweedfs_csi_driv.Common.Dict.{Dict, lookup, insert, insert_all}
use forks_seaweedfs_csi_driv.Common.Failure.{Failure}
use forks_seaweedfs_csi_driv.Driver.Host.{
  Host, Driver, Volume, Node, Action, Event, remount_in_containers, attempt, log,
}
use forks_seaweedfs_csi_driv.Driver.Host.Monad.{pure, ◌>>=◌}
use forks_seaweedfs_csi_driv.Driver.Host.Yields.{
  Yields, Outcome, Always, Yields-pure, Yields-raise, Yields-store, Yields-bind, Yields-after,
}
use forks_seaweedfs_csi_driv.Driver.Node.Probes.{consult-Keeps}
use forks_seaweedfs_csi_driv.Driver.Node.Effects.{
  Has, Yields-known, steady_map, stage_new_volume-Yields,
}
use forks_seaweedfs_csi_driv.Driver.Health.Steady.{
  abort-Keeps, recheck-Keeps, stop_weed_mount-Keeps, detach_staging-Keeps, tear_down_all-Keeps,
  publish_all-Keeps,
}
use forks_seaweedfs_csi_driv.Driver.Health.Binds.{repair}
use forks_seaweedfs_csi_driv.Driver.Health.Recovery.{
  replace_mount, recover_with_context, recover_known, recover_volume_as, remount_all, remount_with,
}

-- The volume that takes the place of `v`: mounted afresh where `v` was, with the same access and
-- publish paths, and with its failure counts reset.
abbrev pub Replaces : String → Volume → Volume → Type 0
Replaces id v w =
    (w.volume_id ≡ id)
    × (w.staged_path ≡ v.staged_path)
    × (w.unmounter ≡ true)
    × (w.read_only ≡ v.read_only)
    × (w.publish_paths ≡ insert_all [] v.publish_paths)
    × (w.health_fail_count ≡ 0)
    × (w.unhealthy_streak ≡ 0)
    × (w.abnormal ≡ none)

-- The map after a recovery; `known` is what it had for the volume before.
abbrev pub Recovered : String → Dict Volume → Option Volume → Dict Volume → Type 0
Recovered id vs none ws = ⊥
Recovered id vs (some v) ws = (w : Volume) × ((ws ≡ insert id w vs) × Replaces id v w)

-- The remounts in the containers return no error.
module _ (h : Host) (d : Driver) {P : Node → Type 0} {E : Failure → Node → Type 0}
    (logs : (e : Event) (s : Node) → P s → P (log e s)) where
  attempted : (a : Action) → Yields P (attempt h a) (λ _. P) E
  unfolding attempt
  attempted a = record { holds = λ s p. logs _ s p }

  remount_with-Yields :
      (dev path staging : String) (ro : Bool)
      → Yields P (remount_with h d dev path staging ro) (λ _. P) E
  unfolding remount_with
  remount_with-Yields dev path staging ro = by_test (dev == "")
    where
      by_test :
          (b : Bool)
          → Yields P
              (if b
                then pure tt
                else (attempt h (remount_in_containers path staging dev ro) >>= λ _. pure tt))
              (λ _. P)
              E
      by_test true = Yields-pure tt (λ s p. p)
      by_test false = Yields-bind _ _ (attempted _) (λ _. Yields-pure tt (λ s p. p))

  repair-Yields : (path staging : String) → Yields P (repair h d true path staging) (λ _. P) E
  unfolding repair
  repair-Yields path staging = Yields-bind _ _ (attempted _) (λ _. Yields-pure tt (λ s p. p))

  remount_all-Yields :
      (dev staging : String) (ps : Dict Bool) → Yields P (remount_all h d dev staging ps) (λ _. P) E
  unfolding remount_all
  remount_all-Yields dev staging [] = Yields-pure tt (λ s p. p)
  remount_all-Yields dev staging ((path, ro) ∷ ps) =
      Yields-bind _ _ (remount_with-Yields dev path staging ro)
        (λ _. Yields-bind _ _ (repair-Yields path staging) (λ _. remount_all-Yields dev staging ps))

module _ (h : Host) (d : Driver) (vs : Dict Volume) where
  replace_mount-Yields :
      (id : String) (hung : Bool) (v : Volume) (c : Dict String)
      → Yields
          (Has vs)
          (replace_mount h d id hung v c)
          (λ r s. Has vs s × Replaces id v (r.0))
          (Always (Has vs))
  unfolding replace_mount
  replace_mount-Yields id hung v c =
      let steady = steady_map h d vs in
      let ps = v.publish_paths in
      Yields-after _ _ (stop_weed_mount-Keeps steady id hung v _) (λ _.
        Yields-after _ _ (detach_staging-Keeps steady _ hung) (λ _.
          Yields-after _ _ (steady.cleans _) (λ _.
            Yields-bind _ _ (stage_new_volume-Yields h d vs id v.staged_path c v.read_only) (λ w.
              record {
                holds = λ s q.
                    let binds = Yields-after _ _ (tear_down_all-Keeps steady ps) (λ gone.
                      Yields-after _ _ (publish_all-Keeps steady _ ps _) (λ recovered.
                        Yields-pure {Q = λ r s. Has vs s × Replaces id v (r.0)} _ (λ t k. (
                          k,
                          (
                            q.1.0,
                            q.1.1,
                            q.1.2,
                            q.1.3,
                            ap (λ m. insert_all m ps) (q.1.4),
                            q.1.5,
                            q.1.6,
                            q.1.7,
                          ),
                        )))) in
                    binds.holds s (q.0);
              }))))

  recover_with_context-Yields :
      (id : String) (hung : Bool) (v : Volume) (c : Option (Dict String))
      → Yields
          (Has vs)
          (recover_with_context h d id hung v c)
          (λ _ s. Recovered id vs (some v) s.volumes)
          (Always (Has vs))
  unfolding recover_with_context
  recover_with_context-Yields id hung v none = Yields-raise _ (λ s k. k)
  recover_with_context-Yields id hung v (some c) = Yields-after _ _ (consult-Keeps _) (λ dev.
      Yields-bind _ _ (replace_mount-Yields id hung v c) (λ r.
        Yields-bind _ _
          (Yields-store {Q = λ _ s. Recovered id vs (some v) s.volumes} id r.0
            (λ s q. (r.0, (ap (insert id r.0) q.0, q.1))))
          (λ _. remount_all-Yields h d (λ e s q. q) dev v.staged_path (r.1))))

  recover_known-Yields :
      (id : String) (hung : Bool) (known : Option Volume)
      → Yields
          (Has vs)
          (recover_known h d id hung known)
          (λ _ s. Recovered id vs known s.volumes)
          (Always (Has vs))
  unfolding recover_known
  recover_known-Yields id hung none = Yields-raise _ (λ s k. k)
  recover_known-Yields id hung (some v) =
      Yields-after _ _ (recheck-Keeps (steady_map h d vs) hung _) (λ confirmed.
        Yields-after _ _ (abort-Keeps confirmed _)
          (λ _. recover_with_context-Yields id hung v v.vol_context))

  pub recover_volume_as-Yields :
      (id : String) (hung : Bool)
      → Yields
          (Has vs)
          (recover_volume_as h d id hung)
          (λ _ s. Recovered id vs (lookup id vs) s.volumes)
          (Always (Has vs))
  unfolding recover_volume_as
  recover_volume_as-Yields id hung =
      Yields-known vs id _ (λ known e. rw (sym e) (recover_known-Yields id hung known))

-- A recovery that is given up, at whatever step, leaves the volume map alone. One that ends well puts
-- into the place of the volume one that is mounted at the same staging path, with the same access and
-- publish paths, whose failure counts are zero and which is not abnormal; nothing else has changed.
pub recover_volume_as_effect :
    (h : Host) (d : Driver) (id : String) (hung : Bool) (n : Node)
    → Outcome
        (λ _ s. Recovered id n.volumes (lookup id n.volumes) s.volumes)
        (λ _ s. s.volumes ≡ n.volumes)
        (recover_volume_as h d id hung n).0
        (recover_volume_as h d id hung n).1
recover_volume_as_effect h d id hung n =
    (recover_volume_as-Yields h d n.volumes id hung).holds n refl
