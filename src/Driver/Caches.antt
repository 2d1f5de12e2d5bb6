-- ===== src/Driver/Caches.antt =====
-- The sweep of cache directories: removeOrphanCacheDirs of pkg/driver/utils.go. What the system and
-- the clock answer for a name, and SHA-256, are parameters: a sweep asks once for each name.
pub mod InUse
mod Tests
use Prim.Native.String.{len}
use forks_seaweedfs_csi_driv.Common.{
  ℕ, String, ◌<>◌, Bool, true, false, ◌&&◌, ◌||◌, not, Option, none, some, List, [], ◌∷◌, ◌==◌, eqb,
  leb, if◌then◌else◌,
}
use forks_seaweedfs_csi_driv.Common.Text.{has_prefix, any_char}
use forks_seaweedfs_csi_driv.Common.Paths.{clean, join_clean, base}
use forks_seaweedfs_csi_driv.Common.Decimal.{pos, format_int}
use forks_seaweedfs_csi_driv.Common.Failure.{Failure, Result, ok, err}
use forks_seaweedfs_csi_driv.Driver.Controller.Provision.{first_chars}

-- The settings of the node service, its volumes, and what it is told.
pub record CacheHolder : Type 0 where
  pub cache_dir : String
  pub temp_dir : String
  pub volume_socket_dir : String
  pub staging_scan_dir : String
  pub driver_name : String
  pub volumes : List String
  pub is_staging : Bool
  pub sha256_hex : String → String
  pub read_dir : String → Result (List String)
  pub stat : String → Bool
  pub dials : String → Bool
  pub rename : String → String → Option Failure
  pub now : String → ℕ

abbrev pub default_socket_dir : String
default_socket_dir = "/var/lib/seaweedfs-mount"

-- What a sweep does: the directories that were moved aside, and those to delete.
pub record Swept : Type 0 where
  pub moved : List (String × String)
  pub detached : List String

abbrev pub nothing : Swept
nothing = record { moved = []; detached = [] }

unfoldable pub is_not_hex : ℕ → Bool
is_not_hex c =
    not (leb b'0' c && leb c b'9' || (leb b'a' c && leb c b'f' || leb b'A' c && leb c b'F'))

module _ (n : CacheHolder) where
  unfoldable pub cache_dir_under : String → String → String
  cache_dir_under cache_base id =
      join_clean (if cache_base == "" then n.temp_dir else cache_base) (n.sha256_hex id)

  -- The name is that of the cache of a volume in the map.
  unfoldable pub is_known : String → List String → String → Bool
  is_known cache_base [] name = false
  is_known cache_base (id ∷ ids) name =
      base (cache_dir_under cache_base id) == name || is_known cache_base ids name

  unfoldable pub kubelet_has_staged : String → Bool
  kubelet_has_staged name =
      if n.staging_scan_dir == ""
      then false
      else n.stat (join_clean (join_clean n.staging_scan_dir n.driver_name) name)

  -- LocalSocketPathForHash
  unfoldable pub local_socket_path_for_hash : String → String
  local_socket_path_for_hash hash =
      join_clean (if n.volume_socket_dir == "" then default_socket_dir else n.volume_socket_dir)
        ("seaweedfs-mount-" <> (first_chars 16 hash <> ".sock"))

  unfoldable pub is_cache_of_served_mount : String → Bool
  unfolding local_socket_path_for_hash is_not_hex
  is_cache_of_served_mount name =
      if not (eqb (len name) 64)
      then false
      else if any_char is_not_hex name
      then false
      else n.dials (local_socket_path_for_hash name)

  unfoldable pub is_in_use : String → String → Bool
  is_in_use cache_base name =
      is_known cache_base n.volumes name
      || (kubelet_has_staged name || is_cache_of_served_mount name)

  unfoldable pub aside_name : String → String
  aside_name name = ".removing-" <> (name <> ("-" <> format_int (pos (n.now name))))

  unfoldable pub moved_aside : String → String → Option Failure → Swept → Swept
  moved_aside from aside (some e) rest = rest
  moved_aside from aside none rest = record {
    moved = (from, aside) ∷ rest.moved;
    detached = aside ∷ rest.detached;
  }

  -- One round of the loop over the entries, with what the others do.
  unfoldable pub detach_one : String → String → Swept → Swept
  unfolding moved_aside aside_name is_in_use
  detach_one cache_base name rest =
      let from = join_clean cache_base name in
      let aside = join_clean cache_base (aside_name name) in
      if name == "chunks"
      then rest
      else if has_prefix name ".removing-"
      then record rest { detached = from ∷ rest.detached }
      else if is_in_use cache_base name
      then rest
      else moved_aside from aside (n.rename from aside) rest

  unfoldable pub detach_entries : String → List String → Swept
  unfolding detach_one
  detach_entries cache_base [] = nothing
  detach_entries cache_base (name ∷ names) =
      detach_one cache_base name (detach_entries cache_base names)

  unfoldable pub from_dir : String → Result (List String) → Swept
  unfolding detach_entries
  from_dir cache_base (err e) = nothing
  from_dir cache_base (ok names) = detach_entries cache_base names

  -- While a volume is being staged, nothing is done.
  unfoldable pub detach_orphan_cache_dirs : String → Swept
  unfolding from_dir
  detach_orphan_cache_dirs cache_base =
      if n.is_staging then nothing else from_dir cache_base (n.read_dir cache_base)

  -- What removeOrphanCacheDirs moves aside, and what it then deletes.
  unfoldable pub remove_orphan_cache_dirs : Swept
  unfolding detach_orphan_cache_dirs clean
  remove_orphan_cache_dirs =
      if n.cache_dir == ""
      then nothing
      else if clean n.cache_dir == clean n.temp_dir
      then nothing
      else detach_orphan_cache_dirs (clean n.cache_dir)
