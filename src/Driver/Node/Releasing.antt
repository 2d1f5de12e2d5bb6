-- ===== src/Driver/Node/Releasing.antt =====
-- What NodeUnpublishVolume and NodeUnstageVolume leave in the volume map.
use forks_seaweedfs_csi_driv.Common.{◌≡◌, refl, sym, ap, String, Bool, true, Option, none, some}
use forks_seaweedfs_csi_driv.Common.Dict.{Dict, lookup, insert, erase}
use forks_seaweedfs_csi_driv.Common.Failure.{Failure, Result, ok, err}
use forks_seaweedfs_csi_driv.Driver.Host.{Host, Driver, Volume, Node, M, note}
use forks_seaweedfs_csi_driv.Driver.Host.Monad.{pure, ◌>>=◌}
use forks_seaweedfs_csi_driv.Driver.Host.Keeps.{keeps_rules, Keeps-map_error}
use forks_seaweedfs_csi_driv.Driver.Host.Yields.{
  Yields, Outcome, Always, Yields-Keeps, Yields-store, Yields-delete, Yields-bind, Yields-after,
}
use forks_seaweedfs_csi_driv.Driver.Volume.{remove_publish_path}
use forks_seaweedfs_csi_driv.Driver.Node.{is_set, require}
use forks_seaweedfs_csi_driv.Driver.Node.Steady.{
  require-Keeps, unpublish-Keeps, unstage-Keeps, cleanup_volume-Keeps,
}
use forks_seaweedfs_csi_driv.Driver.Node.Effects.{Has, Yields-known, steady_map}
use forks_seaweedfs_csi_driv.Driver.Node.Quarantine.{
  unpublish_target-Keeps, cleanup_target-Keeps, forget-Keeps,
}
use forks_seaweedfs_csi_driv.Driver.Node.Release.{
  unpublish_known, node_unpublish_volume, unstage_known, node_unstage_volume,
}

-- The map with the target taken from the publish paths of the volume, if the volume is in it.
unfoldable pub withdrawn : String → String → Dict Volume → Option Volume → Dict Volume
withdrawn id target vs none = vs
withdrawn id target vs (some v) =
    insert id (record v { publish_paths = erase target v.publish_paths }) vs

-- The map without the volume.
unfoldable pub dropped : String → Dict Volume → Option Volume → Dict Volume
dropped id vs none = vs
dropped id vs (some v) = erase id vs

either_way :
    {A : Type 0} (P : Node → Type 0) {s : Node} (r : Result A)
    → Outcome (λ _. P) (Always P) r s
    → P s
either_way P (ok a) p = p
either_way P (err e) p = p

module _ (h : Host) (d : Driver) where
  unpublish_known-Yields :
      (vs : Dict Volume) (id target : String) (known : Option Volume)
      → Yields
          (Has vs)
          (unpublish_known h d id target known)
          (λ _. Has (withdrawn id target vs known))
          (Always (Has (withdrawn id target vs known)))
  unfolding unpublish_known withdrawn remove_publish_path
  unpublish_known-Yields vs id target none =
      let steady = steady_map h d vs in
      Yields-Keeps (
        search (
          keeps_rules,
          unpublish_target-Keeps steady,
          cleanup_target-Keeps steady,
          forget-Keeps steady,
        ))
  unpublish_known-Yields vs id target (some v) =
      let steady = steady_map h d (insert id (remove_publish_path target v) vs) in
      Yields-bind _ _
        (Yields-store {Q = λ _. Has (insert id (remove_publish_path target v) vs)} id _
          (λ s k. ap (insert id _) k))
        (λ _. Yields-Keeps (
          Keeps-map_error _ _
            (unpublish_target-Keeps steady target _ (unpublish-Keeps steady target))))

  require-Has :
      {A : Type 0} {R : A → Node → Type 0} {E : Failure → Node → Type 0} (vs : Dict Volume)
      (b : Bool) (m : String) (f : (Unit {0}) → M A)
      → b ≡ true
      → Yields (Has vs) (f tt) R E
      → Yields (Has vs) (require b m >>= f) R E
  unfolding require ◌>>=◌ pure
  require-Has vs b m f e y = rw e (record { holds = λ s k. y.holds s k })

  node_unpublish_volume-Yields :
      (vs : Dict Volume) (id target : String)
      → is_set id ≡ true
      → is_set target ≡ true
      → Yields
          (Has vs)
          (node_unpublish_volume h d id target)
          (λ _. Has (withdrawn id target vs (lookup id vs)))
          (Always (Has (withdrawn id target vs (lookup id vs))))
  unfolding node_unpublish_volume
  node_unpublish_volume-Yields vs id target i t = require-Has vs _ _ _ i (
      require-Has vs _ _ _ t
        (Yields-known vs id _ (λ known e. rw (sym e) (unpublish_known-Yields vs id target known))))

  -- After NodeUnpublishVolume of a volume ID and a target that are not empty, whether it succeeds or
  -- not, the target is erased from the publish paths of the volume, if the volume is in the map, and
  -- nothing else in the map has changed.
  pub node_unpublish_volume_effect :
      (id target : String) (n : Node)
      → is_set id ≡ true
      → is_set target ≡ true
      → (node_unpublish_volume h d id target n).1.volumes
        ≡ withdrawn id target n.volumes (lookup id n.volumes)
  node_unpublish_volume_effect id target n i t =
      either_way (Has (withdrawn id target n.volumes (lookup id n.volumes)))
        (node_unpublish_volume h d id target n).0
        ((node_unpublish_volume-Yields n.volumes id target i t).holds n refl)

  unstage_known-Yields :
      (vs : Dict Volume) (id path : String) (known : Option Volume)
      → Yields
          (Has vs)
          (unstage_known h d id path known)
          (λ _. Has (dropped id vs known))
          (Always (Has vs))
  unfolding unstage_known dropped
  unstage_known-Yields vs id path none =
      let steady = steady_map h d vs in
      Yields-Keeps (
        search (
          keeps_rules,
          cleanup_target-Keeps steady,
          forget-Keeps steady,
          cleanup_volume-Keeps steady,
        ))
  unstage_known-Yields vs id path (some v) =
      Yields-after _ _ (Keeps-map_error _ _ (unstage-Keeps (steady_map h d vs) path v))
        (λ _. Yields-delete id (λ s k. ap (erase id) k))

  node_unstage_volume-Yields :
      (vs : Dict Volume) (id path : String)
      → Yields
          (Has vs)
          (node_unstage_volume h d id path)
          (λ _. Has (dropped id vs (lookup id vs)))
          (Always (Has vs))
  unfolding node_unstage_volume note
  node_unstage_volume-Yields vs id path = Yields-after _ _ (require-Keeps _ _) (λ _.
      Yields-after _ _ (require-Keeps _ _) (λ _. Yields-known vs id _ (λ known e. rw (sym e) (
        Yields-bind _ _ (unstage_known-Yields vs id path known)
          (λ _. record { holds = λ s k. k })))))

  -- NodeUnstageVolume takes the volume from the map, and nothing else, when it succeeds, and leaves
  -- the map alone when it fails.
  pub node_unstage_volume_effect :
      (id path : String) (n : Node)
      → Outcome
          (λ _ s. s.volumes ≡ dropped id n.volumes (lookup id n.volumes))
          (λ _ s. s.volumes ≡ n.volumes)
          (node_unstage_volume h d id path n).0
          (node_unstage_volume h d id path n).1
  node_unstage_volume_effect id path n = (node_unstage_volume-Yields n.volumes id path).holds n refl
