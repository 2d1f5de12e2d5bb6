-- ===== src/Driver/Node/Publishing.antt =====
-- What NodePublishVolume leaves in the volume map.
use forks_seaweedfs_csi_driv.Common.{
  ◌≡◌, refl, sym, ap, String, Bool, true, false, Option, none, some, ◌⊎◌, inl, inr,
}
use forks_seaweedfs_csi_driv.Common.Dict.{Dict, lookup, insert}
use forks_seaweedfs_csi_driv.Common.Failure.{Failure}
use forks_seaweedfs_csi_driv.Driver.Host.{Host, Driver, Volume, Node, M, store}
use forks_seaweedfs_csi_driv.Driver.Host.Monad.{map_error, ◌>>=◌}
use forks_seaweedfs_csi_driv.Driver.Host.Keeps.{Keeps, keeps_rules, Keeps-map_error}
use forks_seaweedfs_csi_driv.Driver.Host.Yields.{
  Yields, Outcome, Always, Yields-Keeps, Yields-pure, Yields-store, Yields-map_error,
  Yields-on_error, Yields-bind, Yields-weaker, Yields-after,
}
use forks_seaweedfs_csi_driv.Driver.Volume.{new_volume, add_publish_path, publish}
use forks_seaweedfs_csi_driv.Driver.Node.{
  PublishRequest, is_publish_volume_read_only, rebuild_volume_from_staging,
}
use forks_seaweedfs_csi_driv.Driver.Node.Probes.{
  is_staging_path_healthy-Keeps, require_healthy-Keeps,
}
use forks_seaweedfs_csi_driv.Driver.Node.Steady.{require-Keeps, publish-Keeps}
use forks_seaweedfs_csi_driv.Driver.Node.Logged.{steady_by_log}
use forks_seaweedfs_csi_driv.Driver.Node.Effects.{
  Has, Yields-known, steady_map, stage_new_volume-Yields,
}
use forks_seaweedfs_csi_driv.Driver.Node.Outcomes.{IsTracked}
use forks_seaweedfs_csi_driv.Driver.Node.Requests.{restage, staged_volume, node_publish_volume}

-- The volume that the request publishes, and the map that has it.
abbrev StagedFor : PublishRequest → Dict Volume → Option Volume → Volume → Dict Volume → Type 0
StagedFor req vs (some w) v ws = (v ≡ w) × (ws ≡ vs)
StagedFor req vs none v ws =
    IsTracked req.volume_id req.staging_path (is_publish_volume_read_only req) v
    × (ws ≡ insert req.volume_id v vs)

-- The volume with the target among its publish paths.
abbrev pub published_at : String → Bool → Volume → Volume
published_at target ro v = record v { publish_paths = insert target ro v.publish_paths }

-- The map after a request that has published the volume: it has the volume, as it was known or newly
-- tracked, with the target among its publish paths.
abbrev pub Published : PublishRequest → Dict Volume → Option Volume → Dict Volume → Type 0
Published req vs (some w) ws =
    ws ≡ insert req.volume_id (published_at req.target_path req.readonly w) vs
Published req vs none ws =
    (v : Volume) × (IsTracked req.volume_id req.staging_path (is_publish_volume_read_only req) v
      × (ws
          ≡ insert req.volume_id (published_at req.target_path req.readonly v)
              (insert req.volume_id v vs)))

-- The map after a request that has failed: a volume that had to be staged for it may be tracked, with
-- no publish path.
abbrev pub NotPublished : PublishRequest → Dict Volume → Option Volume → Dict Volume → Type 0
NotPublished req vs (some w) ws = ws ≡ vs
NotPublished req vs none ws =
    (ws ≡ vs)
    ⊎ ((v : Volume) × (IsTracked req.volume_id req.staging_path (is_publish_volume_read_only req) v
          × (ws ≡ insert req.volume_id v vs)))

as_failed :
    (req : PublishRequest) (vs : Dict Volume) (known : Option Volume) (v : Volume)
    (ws : Dict Volume)
    → StagedFor req vs known v ws
    → NotPublished req vs known ws
as_failed req vs (some w) v ws q = q.1
as_failed req vs none v ws q = inr (v, q)

unchanged :
    (req : PublishRequest) (vs : Dict Volume) (known : Option Volume) (ws : Dict Volume)
    → ws ≡ vs
    → NotPublished req vs known ws
unchanged req vs (some w) ws e = e
unchanged req vs none ws e = inl e

staged-Published :
    (req : PublishRequest) (vs : Dict Volume) (known : Option Volume) (v : Volume)
    (ws : Dict Volume)
    → StagedFor req vs known v ws
    → Published req vs known
        (insert req.volume_id (add_publish_path req.target_path req.readonly v) ws)
unfolding add_publish_path
staged-Published req vs (some w) v ws q = rw (q.0, q.1) refl
staged-Published req vs none v ws q = (v, (q.0, rw (q.1) refl))

module _ (h : Host) (d : Driver) where
  restage-Yields :
      (vs : Dict Volume) (req : PublishRequest) (b : Bool)
      → Yields
          (Has vs)
          (restage h d req b)
          (λ v s. StagedFor req vs none v s.volumes)
          (Always (Has vs))
  unfolding restage rebuild_volume_from_staging new_volume
  restage-Yields vs req true =
      Yields-bind _ _
        (Yields-store {Q = λ _ s. StagedFor req vs none _ s.volumes} _ _
          (λ s k. ((refl, refl, refl, refl, refl), ap (insert req.volume_id _) k)))
        (λ _. Yields-pure _ (λ s q. q))
  restage-Yields vs req false =
      let steady = steady_map h d vs in
      let ro = is_publish_volume_read_only req in
      let fresh =
        stage_new_volume-Yields h d vs req.volume_id req.staging_path req.volume_context ro in
      Yields-after _ _ (search (keeps_rules, steady.cleans, steady.drops)) (λ _.
        Yields-bind _ _ (Yields-map_error _ _ (λ e s k. k) (Yields-on_error _ _ (λ e s k. k) fresh))
          (λ v.
            Yields-bind _ _
              (Yields-store {Q = λ _ s. StagedFor req vs none v s.volumes} _ v
                (λ s q. ((q.1.0, q.1.1, q.1.3, q.1.4, q.1.5), ap (insert req.volume_id v) q.0)))
              (λ _. Yields-pure v (λ s q. q))))

  staged_volume-Yields :
      (vs : Dict Volume) (req : PublishRequest) (known : Option Volume)
      → Yields
          (Has vs)
          (staged_volume h d req known)
          (λ v s. StagedFor req vs known v s.volumes)
          (Always (Has vs))
  unfolding staged_volume
  staged_volume-Yields vs req (some w) =
      Yields-after _ _ (require_healthy-Keeps (steady_map h d vs).observes _ _)
        (λ _. Yields-pure w (λ s k. (refl, k)))
  staged_volume-Yields vs req none =
      Yields-after _ _ (is_staging_path_healthy-Keeps (steady_map h d vs).observes _)
        (restage-Yields vs req)

  publish-Yields :
      (vs : Dict Volume) (req : PublishRequest) (known : Option Volume) (f : Failure → Failure)
      (v : Volume)
      → Yields
          (λ s. StagedFor req vs known v s.volumes)
          (map_error f (publish h d req.staging_path req.target_path req.readonly) >>= λ _.
            store req.volume_id (add_publish_path req.target_path req.readonly v))
          (λ _ s. Published req vs known s.volumes)
          (λ e s. NotPublished req vs known s.volumes)
  publish-Yields vs req known f v =
      let steady = steady_by_log h d {P = λ s. StagedFor req vs known v s.volumes} (λ e s p. p) in
      Yields-bind _ _
        (Yields-weaker (λ _ s q. q) (λ e s q. as_failed req vs known v s.volumes q)
          (Yields-Keeps (Keeps-map_error f _ (publish-Keeps steady _ _ _))))
        (λ _. Yields-store _ _ (λ s q. staged-Published req vs known v s.volumes q))

  publish_known-Yields :
      (vs : Dict Volume) (req : PublishRequest) (known : Option Volume) (f : Failure → Failure)
      → Yields
          (Has vs)
          (staged_volume h d req known >>= λ v.
            map_error f (publish h d req.staging_path req.target_path req.readonly) >>= λ _.
            store req.volume_id (add_publish_path req.target_path req.readonly v))
          (λ _ s. Published req vs known s.volumes)
          (λ e s. NotPublished req vs known s.volumes)
  publish_known-Yields vs req known f =
      Yields-bind _ _
        (Yields-weaker (λ _ s q. q) (λ e s k. unchanged req vs known s.volumes k)
          (staged_volume-Yields vs req known))
        (publish-Yields vs req known f)

  required :
      {A : Type 0} {R : A → Node → Type 0} (vs : Dict Volume) (req : PublishRequest)
      (m : M (Unit {0})) (f : (Unit {0}) → M A)
      → Keeps (Has vs) m
      → ((u : Unit {0})
          → Yields
              (Has vs)
              (f u)
              R
              (λ e s. NotPublished req vs (lookup req.volume_id vs) s.volumes))
      → Yields (Has vs) (m >>= f) R (λ e s. NotPublished req vs (lookup req.volume_id vs) s.volumes)
  required vs req m f k y =
      Yields-bind _ _
        (Yields-weaker (λ _ s q. q) (λ e s q. unchanged req vs _ s.volumes q) (Yields-Keeps k)) y

  node_publish_volume-Yields :
      (vs : Dict Volume) (req : PublishRequest)
      → Yields
          (Has vs)
          (node_publish_volume h d req)
          (λ _ s. Published req vs (lookup req.volume_id vs) s.volumes)
          (λ _ s. NotPublished req vs (lookup req.volume_id vs) s.volumes)
  unfolding node_publish_volume
  node_publish_volume-Yields vs req = required vs req _ _ (require-Keeps _ _) (λ _.
      required vs req _ _ (require-Keeps _ _) (λ _. required vs req _ _ (require-Keeps _ _) (λ _.
        required vs req _ _ (require-Keeps _ _) (λ _.
          Yields-known vs req.volume_id _
            (λ known e. rw (sym e) (publish_known-Yields vs req known _))))))

  -- NodePublishVolume, on success, leaves the volume in the map with the target among its publish
  -- paths, with the request's read-only flag, and otherwise as it was known, or newly tracked with the
  -- request's ID, staging path and access. On an error a volume that was known is as it was, and another is at most tracked with no
  -- publish path. No other volume is touched.
  pub node_publish_volume_effect :
      (req : PublishRequest) (n : Node)
      → Outcome
          (λ _ s. Published req n.volumes (lookup req.volume_id n.volumes) s.volumes)
          (λ _ s. NotPublished req n.volumes (lookup req.volume_id n.volumes) s.volumes)
          (node_publish_volume h d req n).0
          (node_publish_volume h d req n).1
  node_publish_volume_effect req n = (node_publish_volume-Yields n.volumes req).holds n refl
