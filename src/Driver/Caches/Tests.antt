-- ===== src/Driver/Caches/Tests.antt =====
-- A node with one volume in its map, and an orphan beside the volume's cache.
use mathlib.Core.Path.{subst}
use forks_seaweedfs_csi_driv.Common.{
  String, ◌≡◌, refl, inl, false, none, List, [], ◌∷◌, ◌==◌, All, if◌then◌else◌,
}
use forks_seaweedfs_csi_driv.Common.Paths.{clean, join_clean, base}
use forks_seaweedfs_csi_driv.Common.Decimal.{format_int}
use forks_seaweedfs_csi_driv.Common.Failure.{ok}
use forks_seaweedfs_csi_driv.Driver.Controller.Provision.Names.{IsName, IsDirectory}
use forks_seaweedfs_csi_driv.Driver.Caches.{
  CacheHolder, cache_dir_under, is_known, kubelet_has_staged, is_cache_of_served_mount,
  remove_orphan_cache_dirs,
}
use forks_seaweedfs_csi_driv.Driver.Caches.InUse.{Spares, remove_orphan_cache_dirs-Spares}

abbrev entries : List String
entries = "chunks" ∷ ".removing-old-1" ∷ "a1" ∷ "b2" ∷ []

abbrev node : CacheHolder
node = record {
  cache_dir = "/cache/";
  temp_dir = "/tmp";
  volume_socket_dir = "";
  staging_scan_dir = "";
  driver_name = "csi";
  volumes = "/buckets/pvc-1" ∷ [];
  is_staging = false;
  sha256_hex = λ id. if id == "/buckets/pvc-1" then "a1" else "c3";
  read_dir = λ dir. ok entries;
  stat = λ path. false;
  dials = λ path. false;
  rename = λ from to. none;
  now = λ name. 5;
}

one_orphan : remove_orphan_cache_dirs node ≡ record {
  moved = ("/cache/b2", "/cache/.removing-b2-5") ∷ [];
  detached = "/cache/.removing-old-1" ∷ "/cache/.removing-b2-5" ∷ [];
}
unfolding remove_orphan_cache_dirs join_clean cache_dir_under base is_known kubelet_has_staged
    is_cache_of_served_mount format_int
one_orphan = refl

a1-IsName : IsName "a1"
a1-IsName = record { no_slash = refl; not_empty = λ e. cc; not_dot = λ e. cc; not_dots = λ e. cc }

entries-All : All IsName entries
entries-All = (
  record { no_slash = refl; not_empty = λ e. cc; not_dot = λ e. cc; not_dots = λ e. cc },
  (
    record { no_slash = refl; not_empty = λ e. cc; not_dot = λ e. cc; not_dots = λ e. cc },
    (
      a1-IsName,
      (record { no_slash = refl; not_empty = λ e. cc; not_dot = λ e. cc; not_dots = λ e. cc }, tt),
    ),
  ),
)

read-All : (dir : String) (names : List String) → node.read_dir dir ≡ ok names → All IsName names
read-All dir names e = let same : entries ≡ names = cc in subst (All IsName) same entries-All

cache-IsDirectory : IsDirectory (clean "/cache/")
unfolding clean
cache-IsDirectory = record { rest = "cache"; rooted = refl; is_clean = refl; not_root = λ e. cc }

remove_orphan_cache_dirs-Spares_example :
    Spares node "/buckets/pvc-1" a1-IsName (clean "/cache/") (remove_orphan_cache_dirs node)
remove_orphan_cache_dirs-Spares_example =
    remove_orphan_cache_dirs-Spares node "/buckets/pvc-1" a1-IsName cache-IsDirectory
      (read-All (clean "/cache/")) (inl (inl refl))
