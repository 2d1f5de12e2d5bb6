-- ===== src/Driver/Node/Outcomes.antt =====
-- What NodeStageVolume leaves in the volume map, on success and on error.
use forks_seaweedfs_csi_driv.Common.{
  ◌≡◌, refl, sym, ap, String, Bool, true, false, Option, none, some, [],
}
use forks_seaweedfs_csi_driv.Common.Dict.{Dict, lookup, insert}
use forks_seaweedfs_csi_driv.Driver.Host.{Host, Driver, Volume, Node}
use forks_seaweedfs_csi_driv.Driver.Host.Keeps.{Keeps, keeps_rules, Keeps-pure}
use forks_seaweedfs_csi_driv.Driver.Host.Yields.{
  Yields, Outcome, Always, Yields-Keeps, Yields-store, Yields-map_error, Yields-on_error,
  Yields-bind, Yields-after,
}
use forks_seaweedfs_csi_driv.Driver.Volume.{new_volume}
use forks_seaweedfs_csi_driv.Driver.Node.{
  StageRequest, is_volume_read_only, rebuild_volume_from_staging,
}
use forks_seaweedfs_csi_driv.Driver.Node.Probes.{
  is_staging_path_healthy-Keeps, require_healthy-Keeps,
}
use forks_seaweedfs_csi_driv.Driver.Node.Steady.{require-Keeps}
use forks_seaweedfs_csi_driv.Driver.Node.Effects.{
  Has, Yields-known, steady_map, stage_new_volume-Yields,
}
use forks_seaweedfs_csi_driv.Driver.Node.Requests.{
  adopt, clean_if_stale, stage_afresh, adopt_or_stage, stage_known, node_stage_volume,
}

-- A volume that the node has come to track: its ID, staging path and access, and no publish path.
abbrev pub IsTracked : String → String → Bool → Volume → Type 0
IsTracked id path ro v =
    (v.volume_id ≡ id)
    × (v.staged_path ≡ path)
    × (v.read_only ≡ ro)
    × (v.publish_paths ≡ [])
    × (v.health_fail_count ≡ 0)

-- The map after a request that has staged the volume; `known` is what the map had for it before.
abbrev pub Staged : StageRequest → Dict Volume → Option Volume → Dict Volume → Type 0
Staged req vs (some v) ws = ws ≡ vs
Staged req vs none ws =
    (v : Volume) × ((ws ≡ insert req.volume_id v vs)
      × IsTracked req.volume_id req.staging_path (is_volume_read_only req.capability) v)

module _ (h : Host) (d : Driver) where
  clean_if_stale-Has :
      (vs : Dict Volume) (id p : String) (b : Bool) → Keeps (Has vs) (clean_if_stale h d id p b)
  unfolding clean_if_stale
  clean_if_stale-Has vs id p false = Keeps-pure tt
  clean_if_stale-Has vs id p true =
      let steady = steady_map h d vs in search (keeps_rules, steady.cleans, steady.drops)

  stage_afresh-Yields :
      (vs : Dict Volume) (req : StageRequest)
      → Yields
          (Has vs)
          (stage_afresh h d req)
          (λ _ s. Staged req vs none s.volumes)
          (Always (Has vs))
  unfolding stage_afresh
  stage_afresh-Yields vs req =
      let ro = is_volume_read_only req.capability in
      let fresh =
        stage_new_volume-Yields h d vs req.volume_id req.staging_path req.volume_context ro in
      Yields-after _ _ ((steady_map h d vs).observes.asks _) (λ found.
        Yields-after _ _ (clean_if_stale-Has vs _ _ _) (λ _.
          Yields-bind _ _
            (Yields-map_error _ _ (λ e s k. k) (Yields-on_error _ _ (λ e s k. k) fresh))
            (λ v. Yields-store _ v (λ s q.
              (v, (ap (insert req.volume_id v) q.0, (q.1.0, q.1.1, q.1.3, q.1.4, q.1.5)))))))

  adopt_or_stage-Yields :
      (vs : Dict Volume) (req : StageRequest) (b : Bool)
      → Yields
          (Has vs)
          (adopt_or_stage h d req b)
          (λ _ s. Staged req vs none s.volumes)
          (Always (Has vs))
  unfolding adopt_or_stage adopt rebuild_volume_from_staging new_volume
  adopt_or_stage-Yields vs req true =
      Yields-store _ _ (λ s k. (_, (ap (insert req.volume_id _) k, (refl, refl, refl, refl, refl))))
  adopt_or_stage-Yields vs req false = stage_afresh-Yields vs req

  stage_known-Yields :
      (vs : Dict Volume) (req : StageRequest) (known : Option Volume)
      → Yields
          (Has vs)
          (stage_known h d req known)
          (λ _ s. Staged req vs known s.volumes)
          (Always (Has vs))
  unfolding stage_known
  stage_known-Yields vs req (some v) =
      Yields-Keeps (require_healthy-Keeps (steady_map h d vs).observes _ _)
  stage_known-Yields vs req none =
      Yields-after _ _ (is_staging_path_healthy-Keeps (steady_map h d vs).observes _)
        (adopt_or_stage-Yields vs req)

  node_stage_volume-Yields :
      (vs : Dict Volume) (req : StageRequest)
      → Yields
          (Has vs)
          (node_stage_volume h d req)
          (λ _ s. Staged req vs (lookup req.volume_id vs) s.volumes)
          (Always (Has vs))
  unfolding node_stage_volume
  node_stage_volume-Yields vs req = Yields-after _ _ (require-Keeps _ _) (λ _.
      Yields-after _ _ (require-Keeps _ _) (λ _. Yields-after _ _ (require-Keeps _ _) (λ _.
        Yields-known vs req.volume_id _ (λ known e. rw (sym e) (stage_known-Yields vs req known)))))

  -- NodeStageVolume leaves the volume map alone when it fails, and when it finds the volume in it.
  -- When it succeeds for another volume, the map has that volume added, with the request's ID, staging
  -- path and access and with no publish path, and nothing else has changed.
  pub node_stage_volume_effect :
      (req : StageRequest) (n : Node)
      → Outcome
          (λ _ s. Staged req n.volumes (lookup req.volume_id n.volumes) s.volumes)
          (λ _ s. s.volumes ≡ n.volumes)
          (node_stage_volume h d req n).0
          (node_stage_volume h d req n).1
  node_stage_volume_effect req n = (node_stage_volume-Yields n.volumes req).holds n refl
