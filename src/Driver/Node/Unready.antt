-- ===== src/Driver/Node/Unready.antt =====
-- NodeStageVolume and NodePublishVolume of a volume whose staging mount does not answer.
use forks_seaweedfs_csi_driv.Common.{◌≡◌, refl, ℕ, true, some}
use forks_seaweedfs_csi_driv.Common.Dict.{lookup}
use forks_seaweedfs_csi_driv.Common.Failure.{Result, ok, err, status, unavailable}
use forks_seaweedfs_csi_driv.Driver.Host.{Host, Driver, Volume, Node, load}
use forks_seaweedfs_csi_driv.Driver.Host.Monad.{pure, raise, ◌>>=◌}
use forks_seaweedfs_csi_driv.Driver.MountUtil.{Health, healthy, dead, slow}
use forks_seaweedfs_csi_driv.Driver.Node.{
  StageRequest, PublishRequest, is_given, is_set, require, check_health_unanswered, check_health,
  not_ready, require_healthy_staging,
}
use forks_seaweedfs_csi_driv.Driver.Node.Probes.{
  calls, Untouched, observes-Untouched, check_health_unanswered-Keeps,
}
use forks_seaweedfs_csi_driv.Driver.Node.Requests.{
  stage_known, node_stage_volume, staged_volume, node_publish_volume,
}

-- The request has failed with the status Unavailable, and nothing has been changed.
abbrev pub Refused : Node → Result (Unit {0}) × Node → Type 0
Refused n (ok u, s) = ⊥
Refused n (err e, s) =
    (e.kind ≡ status unavailable) × (calls s.history ≡ calls n.history) × (s.volumes ≡ n.volumes)

abbrev pub IsUnready : Health → Type 0
IsUnready healthy = ⊥
IsUnready dead = Unit
IsUnready slow = Unit

module _ (h : Host) (d : Driver) where
  stage-Refused :
      (req : StageRequest) (v : Volume) (n s : Node) (r : Health) (u : ℕ)
      → check_health_unanswered h req.staging_path n ≡ (ok (r, u), s)
      → IsUnready r
      → Untouched n s
      → Refused n (stage_known h d req (some v) n)
  unfolding stage_known require_healthy_staging check_health not_ready ◌>>=◌ pure raise
  stage-Refused req v n s healthy u e unready q = elim unready [ ]
  stage-Refused req v n s dead u e unready q = rw e (refl, q.0, q.1)
  stage-Refused req v n s slow u e unready q = rw e (refl, q.0, q.1)

  publish-Refused :
      (req : PublishRequest) (v : Volume) (n s : Node) (r : Health) (u : ℕ)
      → check_health_unanswered h req.staging_path n ≡ (ok (r, u), s)
      → is_given req.capability ≡ true
      → is_set req.volume_id ≡ true
      → is_set req.target_path ≡ true
      → is_set req.staging_path ≡ true
      → lookup req.volume_id n.volumes ≡ some v
      → IsUnready r
      → Untouched n s
      → Refused n (node_publish_volume h d req n)
  unfolding node_publish_volume staged_volume require load require_healthy_staging check_health
      not_ready ◌>>=◌ pure raise
  publish-Refused req v n s healthy u e a b c f known unready q = elim unready [ ]
  publish-Refused req v n s dead u e a b c f known unready q =
      rw (a, b, c, f, known, e) (refl, q.0, q.1)
  publish-Refused req v n s slow u e a b c f known unready q =
      rw (a, b, c, f, known, e) (refl, q.0, q.1)

  -- A complete NodePublishVolume request for a volume that is tracked, but whose staging mount is found
  -- dead or slow, fails with Unavailable: nothing is bound, unmounted or removed, and the map is as it
  -- was.
  pub unready_publish-Refused :
      (req : PublishRequest) (v : Volume) (n : Node) (r : Health) (u : ℕ)
      → is_given req.capability ≡ true
      → is_set req.volume_id ≡ true
      → is_set req.target_path ≡ true
      → is_set req.staging_path ≡ true
      → lookup req.volume_id n.volumes ≡ some v
      → (check_health_unanswered h req.staging_path n).0 ≡ ok (r, u)
      → IsUnready r
      → Refused n (node_publish_volume h d req n)
  unready_publish-Refused req v n r u a b c f known verdict unready =
      publish-Refused req v n (check_health_unanswered h req.staging_path n).1 r u
        (λ i. (verdict i, (check_health_unanswered h req.staging_path n).1)) a b c f known unready
        ((check_health_unanswered-Keeps (observes-Untouched h n) req.staging_path).at n
          (refl, refl))

  -- A complete NodeStageVolume request for a volume that is tracked, but whose staging mount is found
  -- dead or slow, fails with Unavailable, and neither the system nor the map is changed.
  pub unready_stage-Refused :
      (req : StageRequest) (v : Volume) (n : Node) (r : Health) (u : ℕ)
      → is_given req.capability ≡ true
      → is_set req.volume_id ≡ true
      → is_set req.staging_path ≡ true
      → lookup req.volume_id n.volumes ≡ some v
      → (check_health_unanswered h req.staging_path n).0 ≡ ok (r, u)
      → IsUnready r
      → Refused n (node_stage_volume h d req n)
  unfolding node_stage_volume require load ◌>>=◌ pure
  unready_stage-Refused req v n r u a b c known verdict unready =
      rw (a, b, c, known)
        (stage-Refused req v n (check_health_unanswered h req.staging_path n).1 r u
          (λ i. (verdict i, (check_health_unanswered h req.staging_path n).1)) unready
          ((check_health_unanswered-Keeps (observes-Untouched h n) req.staging_path).at n
            (refl, refl)))
