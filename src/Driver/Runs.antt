-- ===== src/Driver/Runs.antt =====
-- A run of the node plugin: requests of the node service of pkg/driver/nodeserver.go and health checks
-- of pkg/driver/health_monitor.go, in any order.
use forks_seaweedfs_csi_driv.Common.{String, []}
use forks_seaweedfs_csi_driv.Common.Decimal.{ℤ}
use forks_seaweedfs_csi_driv.Driver.Host.{Host, Driver, Node}
use forks_seaweedfs_csi_driv.Driver.MountUtil.Removal.{IsGuarded, Guarded}
use forks_seaweedfs_csi_driv.Driver.Node.{StageRequest, PublishRequest}
use forks_seaweedfs_csi_driv.Driver.Node.Requests.{node_stage_volume, node_publish_volume}
use forks_seaweedfs_csi_driv.Driver.Node.Release.{
  node_unpublish_volume, node_unstage_volume, node_expand_volume,
}
use forks_seaweedfs_csi_driv.Driver.Node.Guarded.{
  node_stage_volume-Guarded, node_publish_volume-Guarded, node_unpublish_volume-Guarded,
  node_unstage_volume-Guarded, node_expand_volume-Guarded,
}
use forks_seaweedfs_csi_driv.Driver.Health.Sweep.{perform_volume_health_check}
use forks_seaweedfs_csi_driv.Driver.Health.Guarded.{perform_volume_health_check-Guarded}

-- One request or one health check, whatever it returns.
pub data Step (h : Host) (d : Driver) : Node → Node → Type 0 where
  stages : (req : StageRequest) (n : Node) → Step h d n (node_stage_volume h d req n).1
  publishes : (req : PublishRequest) (n : Node) → Step h d n (node_publish_volume h d req n).1
  unpublishes :
      (id target : String) (n : Node) → Step h d n (node_unpublish_volume h d id target n).1
  unstages : (id path : String) (n : Node) → Step h d n (node_unstage_volume h d id path n).1
  expands :
      (id path : String) (size : ℤ) (n : Node)
      → Step h d n (node_expand_volume h d id path size n).1
  checks : (id : String) (n : Node) → Step h d n (perform_volume_health_check h d id n).1

pub data Run (h : Host) (d : Driver) : Node → Node → Type 0 where
  start : (n : Node) → Run h d n n
  then : {a b c : Node} → Run h d a b → Step h d b c → Run h d a c

-- The plugin when it starts: it tracks no volume.
abbrev pub at_start : Node
at_start = record { volumes = []; history = [] }

Step-Guarded : {h : Host} {d : Driver} {a b : Node} → Step h d a b → Guarded a → Guarded b
Step-Guarded (stages req n) g = (node_stage_volume-Guarded _ _ req).at n g
Step-Guarded (publishes req n) g = (node_publish_volume-Guarded _ _ req).at n g
Step-Guarded (unpublishes id target n) g = (node_unpublish_volume-Guarded _ _ id target).at n g
Step-Guarded (unstages id path n) g = (node_unstage_volume-Guarded _ _ id path).at n g
Step-Guarded (expands id path size n) g = (node_expand_volume-Guarded _ _ id path size).at n g
Step-Guarded (checks id n) g = (perform_volume_health_check-Guarded _ _ id).at n g

Run-Guarded : {h : Host} {d : Driver} {a b : Node} → Run h d a b → Guarded a → Guarded b
Run-Guarded (start n) g = g
Run-Guarded (then r s) g = Step-Guarded s (Run-Guarded r g)

-- However requests and health checks follow each other from the start of the plugin, and whatever the
-- system answers, os.Remove is called on the directory of a mount only directly after that path was seen
-- not to be a mount point, or was detached from it, or the mount service stopped a weed mount.
pub every_removal-IsGuarded :
    (h : Host) (d : Driver) (n : Node) → Run h d at_start n → IsGuarded n.history
every_removal-IsGuarded h d n r = Run-Guarded r tt
