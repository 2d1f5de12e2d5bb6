-- ===== src/Driver/Stats.antt =====
-- For which paths the node service reports usage: validateVolumeStatsPath of
-- pkg/driver/volume_stats.go. A map is walked in the order of its dictionary.
pub mod Reported
mod Tests
use forks_seaweedfs_csi_driv.Common.{
  String, ◌<>◌, Bool, true, false, ◌&&◌, ◌||◌, not, Option, none, some, List, [], ◌∷◌, ◌==◌,
  if◌then◌else◌,
}
use forks_seaweedfs_csi_driv.Common.Text.{has_prefix, split}
use forks_seaweedfs_csi_driv.Common.Paths.{clean}
use forks_seaweedfs_csi_driv.Common.Dict.{Dict, lookup}
use forks_seaweedfs_csi_driv.Common.Failure.{Failure, status_error, invalid_argument, not_found}
use forks_seaweedfs_csi_driv.Driver.Host.{Volume}
use forks_seaweedfs_csi_driv.Driver.Volume.{has_publish_path}

-- The volume is staged or published at the path.
unfoldable pub tracks : String → Volume → Bool
tracks path v = v.staged_path == path || has_publish_path path v

-- volumeStatsPathOwner; no owner is an empty one.
unfoldable pub volume_stats_path_owner : String → Dict Volume → String
volume_stats_path_owner path [] = ""
volume_stats_path_owner path ((id, v) ∷ volumes) =
    if tracks path v then id else volume_stats_path_owner path volumes

-- What stands behind pods/<uid>/volumes/kubernetes.io~csi/<pv>/mount at the front of a path.
unfoldable pub behind_layout : List String → Option (List String)
behind_layout (a ∷ b ∷ c ∷ d ∷ e ∷ f ∷ rest) =
    if a == "pods"
      && (not (b == "")
          && (c == "volumes" && (d == "kubernetes.io~csi" && (not (e == "") && f == "mount"))))
    then some rest
    else none
behind_layout _ = none

unfoldable pub ends_there : Option (List String) → Bool → Bool
ends_there none later = later
ends_there (some []) later = true
ends_there (some (part ∷ parts)) later = false

-- The loop over the parts of a path.
unfoldable pub has_layout : List String → Bool
unfolding behind_layout ends_there
has_layout [] = false
has_layout (part ∷ parts) = ends_there (behind_layout (part ∷ parts)) (has_layout parts)

unfoldable pub is_kubelet_csi_publish_path : String → Bool
unfolding has_layout clean
is_kubelet_csi_publish_path path = has_layout (split b'/' (clean path))

unfoldable pub is_tracked : String → Option Volume → Bool
unfolding tracks
is_tracked path none = false
is_tracked path (some v) = tracks path v

unfoldable pub validate_volume_stats_path : Dict Volume → String → String → Option Failure
unfolding volume_stats_path_owner is_tracked is_kubelet_csi_publish_path
validate_volume_stats_path volumes id path =
    let owner = volume_stats_path_owner path volumes in
    if not (has_prefix path "/")
    then some (status_error invalid_argument ("volume path " <> (path <> " is not absolute")))
    else if not (owner == "") && not (owner == id)
    then some (
        status_error not_found
          ("volume path " <> (path <> (" is not published for volume " <> id))))
    else if is_tracked path (lookup id volumes)
    then none
    else if is_kubelet_csi_publish_path path
    then none
    else some (status_error not_found ("volume " <> (id <> " is not staged or published")))
