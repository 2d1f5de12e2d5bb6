-- ===== src/Driver/Stats/Tests.antt =====
-- Two volumes, one of them published.
use forks_seaweedfs_csi_driv.Common.{
  String, ◌≡◌, ◌≢◌, ◌⊎◌, refl, true, false, none, some, [], ◌∷◌, All, Among,
}
use forks_seaweedfs_csi_driv.Common.Text.{has_prefix, split}
use forks_seaweedfs_csi_driv.Common.Paths.{clean}
use forks_seaweedfs_csi_driv.Common.Dict.{Dict, lookup, has_key}
use forks_seaweedfs_csi_driv.Common.Failure.{status_error, not_found}
use forks_seaweedfs_csi_driv.Driver.Host.{Volume}
use forks_seaweedfs_csi_driv.Driver.Volume.{has_publish_path}
use forks_seaweedfs_csi_driv.Driver.Stats.{tracks, validate_volume_stats_path}
use forks_seaweedfs_csi_driv.Driver.Stats.Reported.{
  IsPublishPath, Tracks, validate_volume_stats_path-Tracks,
}

abbrev volume : Volume
volume = record {
  volume_id = "data";
  staged_path = "/stage/data";
  unmounter = true;
  health_fail_count = 0;
  unhealthy_streak = 0;
  abnormal = none;
  publish_paths = ("/pods/1/mount", false) ∷ [];
  vol_context = none;
  read_only = false;
}

abbrev volumes : Dict Volume
volumes =
    ("data", volume)
    ∷ ("logs", record volume { staged_path = "/stage/logs"; publish_paths = [] })
    ∷ []

of_another :
    validate_volume_stats_path volumes "logs" "/pods/1/mount"
    ≡ some (status_error not_found "volume path /pods/1/mount is not published for volume logs")
unfolding validate_volume_stats_path has_key lookup has_publish_path
of_another = refl

unknown_layout :
    validate_volume_stats_path [] "old" "/kubelet/pods/8c/volumes/kubernetes.io~csi/pv-1/mount/"
    ≡ none
unfolding validate_volume_stats_path lookup
unknown_layout = refl

named_volumes : All (λ e. e.0 ≢ "") volumes
named_volumes = (λ e. cc, (λ e. cc, tt))

data_accepted : validate_volume_stats_path volumes "data" "/pods/1/mount" ≡ none
unfolding validate_volume_stats_path has_key lookup has_publish_path
data_accepted = refl

validate_volume_stats_path-Tracks_example :
    (has_prefix "/pods/1/mount" "/" ≡ true)
    × (Tracks volumes "data" "/pods/1/mount"
        ⊎ (IsPublishPath (split b'/' (clean "/pods/1/mount"))
            × ((other : String) (v : Volume)
                → Among (other, v) volumes
                → tracks "/pods/1/mount" v ≡ false)))
validate_volume_stats_path-Tracks_example =
    validate_volume_stats_path-Tracks volumes "data" "/pods/1/mount" named_volumes data_accepted
