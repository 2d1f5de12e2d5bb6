-- ===== src/Driver/Wellformed/Requests.antt =====
-- Requests (pkg/driver/nodeserver.go), whole runs, and the form of the volume map.
use forks_seaweedfs_csi_driv.Common.{◌≡◌, refl, sym, String, Option, none, some, arith, inl, inr}
use forks_seaweedfs_csi_driv.Common.Dict.{lookup, insert, lookup-nil}
use forks_seaweedfs_csi_driv.Common.Decimal.{ℤ}
use forks_seaweedfs_csi_driv.Common.Failure.{Result, ok, err}
use forks_seaweedfs_csi_driv.Driver.Host.{Host, Driver, Volume, Node, load, store}
use forks_seaweedfs_csi_driv.Driver.Host.Monad.{◌>>=◌}
use forks_seaweedfs_csi_driv.Driver.Host.Keeps.{
  Keeps, keeps_rules, Keeps-pure, Keeps-bind, Keeps-map_error, bind_at,
}
use forks_seaweedfs_csi_driv.Driver.Host.Yields.{Outcome}
use forks_seaweedfs_csi_driv.Driver.Volume.{add_publish_path, remove_publish_path}
use forks_seaweedfs_csi_driv.Driver.Node.{StageRequest, PublishRequest}
use forks_seaweedfs_csi_driv.Driver.Node.Steady.{
  load-Keeps, require-Keeps, unpublish-Keeps, quota-Keeps,
}
use forks_seaweedfs_csi_driv.Driver.Node.Outcomes.{Staged, node_stage_volume_effect}
use forks_seaweedfs_csi_driv.Driver.Node.Publishing.{
  Published, NotPublished, node_publish_volume_effect,
}
use forks_seaweedfs_csi_driv.Driver.Node.Releasing.{dropped, node_unstage_volume_effect}
use forks_seaweedfs_csi_driv.Driver.Node.Quarantine.{
  unpublish_target-Keeps, cleanup_target-Keeps, forget-Keeps,
}
use forks_seaweedfs_csi_driv.Driver.Node.Requests.{node_stage_volume, node_publish_volume}
use forks_seaweedfs_csi_driv.Driver.Node.Release.{
  unpublish_known, expand_known, node_unpublish_volume, node_unstage_volume, node_expand_volume,
}
use forks_seaweedfs_csi_driv.Driver.Runs.{
  Step, stages, publishes, unpublishes, unstages, expands, checks, Run, start, then, at_start,
}
use forks_seaweedfs_csi_driv.Driver.Wellformed.{
  IsWellformed, others, others-insert, insert-IsWellformed, erase-IsWellformed,
}
use forks_seaweedfs_csi_driv.Driver.Wellformed.Sweeps.{Well, steady, perform-Well}

Staged-Well :
    (req : StageRequest) (n s : Node) (known : Option Volume) (r : Result (Unit {0}))
    → Well n
    → Outcome (λ _ s. Staged req n.volumes known s.volumes) (λ _ s. s.volumes ≡ n.volumes) r s
    → Well s
Staged-Well req n s known (err e) wf q = rw q wf
Staged-Well req n s (some v) (ok u) wf q = rw q wf
Staged-Well req n s none (ok u) wf (v, (e, t)) = rw e (
    insert-IsWellformed req.volume_id v n.volumes (others req.volume_id n.volumes wf)
      (t.0, omega (arith, t.4)))

Published-Well :
    (req : PublishRequest) (n s : Node) (known : Option Volume) (r : Result (Unit {0}))
    → known ≡ lookup req.volume_id n.volumes
    → Well n
    → Outcome
        (λ _ s. Published req n.volumes known s.volumes)
        (λ _ s. NotPublished req n.volumes known s.volumes)
        r
        s
    → Well s
unfolding add_publish_path
Published-Well req n s (some v) (err e) k wf q = rw q wf
Published-Well req n s none (err e) k wf (inl q) = rw q wf
Published-Well req n s none (err e) k wf (inr (v, (t, q))) = rw q (
    insert-IsWellformed req.volume_id v n.volumes (others req.volume_id n.volumes wf)
      (t.0, omega (arith, t.4)))
Published-Well req n s (some v) (ok u) k wf q = rw q (
    insert-IsWellformed req.volume_id _ n.volumes (others req.volume_id n.volumes wf)
      (wf req.volume_id v (sym k)))
Published-Well req n s none (ok u) k wf (v, (t, q)) =
    let id = req.volume_id in
    rw q (
      insert-IsWellformed id _ (insert id v n.volumes)
        (others-insert id v n.volumes (others id n.volumes wf)) (t.0, omega (arith, t.4)))

unstaged-Well :
    (id : String) (n s : Node) (known : Option Volume) (r : Result (Unit {0}))
    → Well n
    → Outcome (λ _ s. s.volumes ≡ dropped id n.volumes known) (λ _ s. s.volumes ≡ n.volumes) r s
    → Well s
unfolding dropped
unstaged-Well id n s known (err e) wf q = rw q wf
unstaged-Well id n s none (ok u) wf q = rw q wf
unstaged-Well id n s (some v) (ok u) wf q = rw q (erase-IsWellformed id n.volumes wf)

module _ (h : Host) (d : Driver) where
  unpublish_known-Well :
      (id target : String) (known : Option Volume) (s : Node)
      → known ≡ lookup id s.volumes
      → Well s
      → Well (unpublish_known h d id target known s).1
  unfolding unpublish_known store remove_publish_path
  unpublish_known-Well id target none s e wf =
      let st = steady h d in
      let k : Keeps Well (unpublish_known h d id target none) =
        search (keeps_rules, unpublish_target-Keeps st, cleanup_target-Keeps st, forget-Keeps st) in
      k.at s wf
  unpublish_known-Well id target (some v) s e wf =
      bind_at {P = Well} (store id (remove_publish_path target v)) _ s
        (insert-IsWellformed id _ s.volumes (others id s.volumes wf) (wf id v (sym e)))
        (λ _.
          Keeps-map_error _ _
            (unpublish_target-Keeps (steady h d) target _ (unpublish-Keeps (steady h d) target)))

  unpublish_loaded-Well :
      (id target : String) → Keeps Well (load id >>= unpublish_known h d id target)
  unfolding load ◌>>=◌
  unpublish_loaded-Well id target = record {
    at = λ s wf. unpublish_known-Well id target (lookup id s.volumes) s refl wf;
  }

  unpublish-Well : (id target : String) → Keeps Well (node_unpublish_volume h d id target)
  unfolding node_unpublish_volume
  unpublish-Well id target =
      Keeps-bind _ _ (require-Keeps _ _)
        (λ _. Keeps-bind _ _ (require-Keeps _ _) (λ _. unpublish_loaded-Well id target))

  expand_known-Well :
      (id : String) (size : ℤ) (known : Option Volume) → Keeps Well (expand_known h d id size known)
  unfolding expand_known
  expand_known-Well id size none = Keeps-pure tt
  expand_known-Well id size (some v) = quota-Keeps (steady h d) v.volume_id size

  expand-Well : (id path : String) (size : ℤ) → Keeps Well (node_expand_volume h d id path size)
  unfolding node_expand_volume
  expand-Well id path size =
      search (keeps_rules, require-Keeps, load-Keeps, expand_known-Well) depth 8

  Step-Well : {a b : Node} → Step h d a b → Well a → Well b
  Step-Well (stages req n) wf =
      Staged-Well req n _ _ (node_stage_volume h d req n).0 wf (node_stage_volume_effect h d req n)
  Step-Well (publishes req n) wf =
      Published-Well req n _ _ (node_publish_volume h d req n).0 refl wf
        (node_publish_volume_effect h d req n)
  Step-Well (unpublishes id target n) wf = (unpublish-Well id target).at n wf
  Step-Well (unstages id path n) wf =
      unstaged-Well id n _ _ (node_unstage_volume h d id path n).0 wf
        (node_unstage_volume_effect h d id path n)
  Step-Well (expands id path size n) wf = (expand-Well id path size).at n wf
  Step-Well (checks id n) wf = (perform-Well h d id).at n wf

  Run-Well : {a b : Node} → Run h d a b → Well a → Well b
  Run-Well (start n) wf = wf
  Run-Well (then r s) wf = Step-Well s (Run-Well r wf)

-- However requests and health checks follow each other from the start of the plugin, every volume in
-- the map stands under its own ID, and its count of failed checks is below the threshold of three at
-- which a recovery starts.
pub Run-IsWellformed :
    (h : Host) (d : Driver) (n : Node) → Run h d at_start n → IsWellformed n.volumes
Run-IsWellformed h d n r = Run-Well h d r (λ id v found. cc (found, lookup-nil {V = Volume} id))
