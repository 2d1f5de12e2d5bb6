-- ===== src/Driver/Node/Guarded.antt =====
-- The removals of the requests of pkg/driver/nodeserver.go.
use forks_seaweedfs_csi_driv.Common.{String, Bool, true, false, Option, none, some}
use forks_seaweedfs_csi_driv.Common.Decimal.{ℤ}
use forks_seaweedfs_csi_driv.Common.Failure.{Failure}
use forks_seaweedfs_csi_driv.Driver.Host.{
  Host, Driver, Volume, Node, note, store, delete, attempt, log, did, service_unmount,
  dropped_mutex, looked_up,
}
use forks_seaweedfs_csi_driv.Driver.Host.Monad.{raise, ◌>>=◌}
use forks_seaweedfs_csi_driv.Driver.Host.Keeps.{Keeps, keeps_rules, Keeps-pure}
use forks_seaweedfs_csi_driv.Driver.MountUtil.Removal.{
  Guarded, attempt-Guarded, try_ask-Guarded, probe_statfs-Guarded, reset-Guarded,
  remove_or_raise-Guarded, cleanup_stale_staging_path-Guarded,
}
use forks_seaweedfs_csi_driv.Driver.Volume.{take_down, remove_unstaged}
use forks_seaweedfs_csi_driv.Driver.Node.{StageRequest, PublishRequest}
use forks_seaweedfs_csi_driv.Driver.Node.Probes.{
  is_staging_path_healthy-Keeps, require_healthy-Keeps,
}
use forks_seaweedfs_csi_driv.Driver.Node.Steady.{
  Steady, load-Keeps, require-Keeps, cleanup_volume-Keeps, publish-Keeps, quota-Keeps,
  unpublish-Keeps, unstage-Keeps, stage_new_volume-Keeps,
}
use forks_seaweedfs_csi_driv.Driver.Node.Quarantine.{
  unpublish_target-Keeps, cleanup_target-Keeps, forget-Keeps,
}
use forks_seaweedfs_csi_driv.Driver.Node.Requests.{
  adopt, clean_if_stale, stage_afresh, adopt_or_stage, stage_known, node_stage_volume, restage,
  staged_volume, node_publish_volume,
}
use forks_seaweedfs_csi_driv.Driver.Node.Release.{
  unpublish_known, unstage_known, expand_known, node_unpublish_volume, node_unstage_volume,
  node_expand_volume,
}

pub store-Guarded : (id : String) (v : Volume) → Keeps Guarded (store id v)
unfolding store
store-Guarded id v = record { at = λ s g. g }

delete-Guarded : (id : String) → Keeps Guarded (delete id)
unfolding delete
delete-Guarded id = record { at = λ s g. g }

looked-Guarded : (id : String) → Keeps Guarded (note (looked_up id))
unfolding note
looked-Guarded id = record { at = λ s g. g }

dropped-Guarded : (id : String) → Keeps Guarded (note (dropped_mutex id))
unfolding note
dropped-Guarded id = record { at = λ s g. g }

module _ (h : Host) (d : Driver) where
  remove_unstaged-Guarded :
      (v p : String) (r : Option Failure) (n : Node)
      → Guarded n
      → Guarded (remove_unstaged h d p r (log (did (service_unmount v) r) n)).1
  unfolding remove_unstaged raise
  remove_unstaged-Guarded v p (some e) n g = g
  remove_unstaged-Guarded v p none n g = remove_or_raise-Guarded h p _ tt g

  take_down-Guarded : (v : Volume) (p : String) (b : Bool) → Keeps Guarded (take_down h d v p b)
  unfolding take_down ◌>>=◌ attempt
  take_down-Guarded v p false = search (keeps_rules, attempt-Guarded h)
  take_down-Guarded v p true = record {
    at = λ s g.
        remove_unstaged-Guarded v.volume_id p (h.act s.history (service_unmount v.volume_id)) s g;
  }

  pub guarded : Steady h d Guarded
  guarded = record {
    attempts = attempt-Guarded h;
    observes = record { asks = try_ask-Guarded h; probes = probe_statfs-Guarded h };
    resets = reset-Guarded;
    looks = looked-Guarded;
    drops = λ id s g. g;
    cleans = cleanup_stale_staging_path-Guarded h;
    takes_down = take_down-Guarded;
  }

  clean_if_stale-Guarded : (id p : String) (b : Bool) → Keeps Guarded (clean_if_stale h d id p b)
  unfolding clean_if_stale
  clean_if_stale-Guarded id p false = Keeps-pure tt
  clean_if_stale-Guarded id p true = search (keeps_rules, guarded.cleans, guarded.drops)

  stage_afresh-Guarded : (req : StageRequest) → Keeps Guarded (stage_afresh h d req)
  unfolding stage_afresh
  stage_afresh-Guarded req =
      search
        (
          keeps_rules,
          guarded.observes.asks,
          clean_if_stale-Guarded,
          guarded.drops,
          stage_new_volume-Keeps guarded,
          store-Guarded,
        )
        depth 8

  adopt_or_stage-Guarded :
      (req : StageRequest) (b : Bool) → Keeps Guarded (adopt_or_stage h d req b)
  unfolding adopt_or_stage adopt
  adopt_or_stage-Guarded req true = store-Guarded _ _
  adopt_or_stage-Guarded req false = stage_afresh-Guarded req

  stage_known-Guarded :
      (req : StageRequest) (v : Option Volume) → Keeps Guarded (stage_known h d req v)
  unfolding stage_known
  stage_known-Guarded req (some v) =
      require_healthy-Keeps guarded.observes req.volume_id req.staging_path
  stage_known-Guarded req none =
      search (keeps_rules, is_staging_path_healthy-Keeps guarded.observes, adopt_or_stage-Guarded)

  pub node_stage_volume-Guarded : (req : StageRequest) → Keeps Guarded (node_stage_volume h d req)
  unfolding node_stage_volume
  node_stage_volume-Guarded req =
      search (keeps_rules, require-Keeps, load-Keeps, stage_known-Guarded) depth 8

  restage-Guarded : (req : PublishRequest) (b : Bool) → Keeps Guarded (restage h d req b)
  unfolding restage
  restage-Guarded req true = search (keeps_rules, store-Guarded)
  restage-Guarded req false =
      search
        (keeps_rules, guarded.cleans, guarded.drops, stage_new_volume-Keeps guarded, store-Guarded)
        depth 8

  staged_volume-Guarded :
      (req : PublishRequest) (v : Option Volume) → Keeps Guarded (staged_volume h d req v)
  unfolding staged_volume
  staged_volume-Guarded req (some v) = search (keeps_rules, require_healthy-Keeps guarded.observes)
  staged_volume-Guarded req none =
      search (keeps_rules, is_staging_path_healthy-Keeps guarded.observes, restage-Guarded)

  pub node_publish_volume-Guarded :
      (req : PublishRequest) → Keeps Guarded (node_publish_volume h d req)
  unfolding node_publish_volume
  node_publish_volume-Guarded req =
      search
        (
          keeps_rules,
          require-Keeps,
          load-Keeps,
          staged_volume-Guarded,
          publish-Keeps guarded,
          store-Guarded,
        )
        depth 12

  unpublish_known-Guarded :
      (id t : String) (v : Option Volume) → Keeps Guarded (unpublish_known h d id t v)
  unfolding unpublish_known
  unpublish_known-Guarded id t none = search (
    keeps_rules,
    unpublish_target-Keeps guarded,
    cleanup_target-Keeps guarded,
    forget-Keeps guarded,
  )
  unpublish_known-Guarded id t (some v) =
      search (keeps_rules, store-Guarded, unpublish_target-Keeps guarded, unpublish-Keeps guarded)

  pub node_unpublish_volume-Guarded :
      (id t : String) → Keeps Guarded (node_unpublish_volume h d id t)
  unfolding node_unpublish_volume
  node_unpublish_volume-Guarded id t =
      search (keeps_rules, require-Keeps, load-Keeps, unpublish_known-Guarded) depth 8

  unstage_known-Guarded :
      (id p : String) (v : Option Volume) → Keeps Guarded (unstage_known h d id p v)
  unfolding unstage_known
  unstage_known-Guarded id p none = search (
    keeps_rules,
    cleanup_target-Keeps guarded,
    forget-Keeps guarded,
    cleanup_volume-Keeps guarded,
  )
  unstage_known-Guarded id p (some v) = search (keeps_rules, unstage-Keeps guarded, delete-Guarded)

  pub node_unstage_volume-Guarded : (id p : String) → Keeps Guarded (node_unstage_volume h d id p)
  unfolding node_unstage_volume
  node_unstage_volume-Guarded id p =
      search (keeps_rules, require-Keeps, load-Keeps, unstage_known-Guarded, dropped-Guarded) depth
        8

  expand_known-Guarded :
      (id : String) (c : ℤ) (v : Option Volume) → Keeps Guarded (expand_known h d id c v)
  unfolding expand_known
  expand_known-Guarded id c none = Keeps-pure tt
  expand_known-Guarded id c (some v) = quota-Keeps guarded v.volume_id c

  pub node_expand_volume-Guarded :
      (id p : String) (c : ℤ) → Keeps Guarded (node_expand_volume h d id p c)
  unfolding node_expand_volume
  node_expand_volume-Guarded id p c =
      search (keeps_rules, require-Keeps, load-Keeps, expand_known-Guarded) depth 8
