-- ===== src/Driver/Arguments/Tests.antt =====
-- The arguments of a read-only volume.
use forks_seaweedfs_csi_driv.Common.{String, ◌≡◌, refl, true, List, [], ◌∷◌}
use forks_seaweedfs_csi_driv.Common.Paths.{base}
use forks_seaweedfs_csi_driv.Common.Decimal.{pos, negsuc, parse_int, format_int}
use forks_seaweedfs_csi_driv.Common.Dict.{Dict, get_or_empty, has_key, lookup, insert}
use forks_seaweedfs_csi_driv.Common.Failure.{ok}
use forks_seaweedfs_csi_driv.Common.Paths.{join_clean}
use forks_seaweedfs_csi_driv.Driver.Params.{none_}
use forks_seaweedfs_csi_driv.Driver.Quota.{initial_collection_quota_mb}
use forks_seaweedfs_csi_driv.Driver.Arguments.{
  Settings, build_mount_args, filer_path, mapped, is_ignored, flag, data_center_of, locality_of,
  collection, write_buffer_size_arg,
}
use forks_seaweedfs_csi_driv.Driver.Arguments.Managed.{IsManaged, build_mount_args-IsManaged}

last_element : base "/buckets/pvc-1/" ≡ "pvc-1"
unfolding base
last_element = refl

abbrev settings : Settings
settings = record {
  filers = "filer-0:8888" ∷ "filer-1:8888" ∷ [];
  cache_dir = "/cache";
  temp_dir = "/tmp";
  cache_capacity_mb = pos 512;
  cache_meta_ttl_sec = pos 60;
  concurrent_readers = pos 16;
  concurrent_writers = pos 32;
  write_buffer_size_mb = negsuc 0;
  uid_map = "";
  gid_map = "";
  data_center = "";
  data_locality = none_;
  mount_extra_args = "-dirListCacheLimit=100" ∷ [];
}

abbrev context : Dict String
context =
    ("diskType", "ssd")
    ∷ ("sharedChunkCacheDir", "/elsewhere")
    ∷ ("collectionQuotaMB", "1")
    ∷ ("volumeCapacity", "1048577")
    ∷ ("unknown", "x")
    ∷ []

abbrev printed : List String
printed =
    "-logtostderr=true" ∷ "mount" ∷ "-dirAutoCreate=true" ∷ "-umask=000" ∷ "-dir=/staging"
    ∷ "-localSocket=/run/v.sock" ∷ "-cacheDir=/cache/v" ∷ "-sharedChunkCacheDir=/cache/chunks"
    ∷ "-readOnly" ∷ "-collection=pvc-1" ∷ "-collectionQuotaMB=2" ∷ "-df.logical=true"
    ∷ "-filer=filer-0:8888,filer-1:8888" ∷ "-filer.path=/buckets/pvc-1" ∷ "-cacheCapacityMB=512"
    ∷ "-cacheMetaTtlSec=60" ∷ "-concurrentReaders=16" ∷ "-concurrentWriters=32" ∷ "-disk=ssd"
    ∷ "-dirListCacheLimit=100" ∷ []

built :
    build_mount_args settings "pvc-1" true context "/staging" "/cache/v" "/run/v.sock" ≡ ok printed
unfolding build_mount_args filer_path mapped is_ignored flag data_center_of locality_of collection
    write_buffer_size_arg initial_collection_quota_mb parse_int format_int base join_clean
    get_or_empty has_key lookup insert
built = refl

build_mount_args-IsManaged_example :
    IsManaged settings "pvc-1" context true "/staging" "/cache/v" "/run/v.sock" printed
build_mount_args-IsManaged_example =
    build_mount_args-IsManaged settings "pvc-1" context true "/staging" "/cache/v" "/run/v.sock"
      printed built
