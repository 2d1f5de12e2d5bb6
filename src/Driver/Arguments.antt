-- ===== src/Driver/Arguments.antt =====
-- The arguments of a weed mount: pkg/driver/mounter.go and pkg/driver/mounter_args_linux.go, with
-- CheckDataLocality and SharedChunkCacheDir of pkg/driver/utils.go.
mod Flags
mod Kept
pub mod Managed
mod Printed
mod Tests
use forks_seaweedfs_csi_driv.Common.{
  ℕ, String, ◌<>◌, Bool, true, false, ◌&&◌, ◌||◌, not, Option, none, some, List, [], ◌∷◌, ◌++◌,
  ◌==◌, member, eqb, if◌then◌else◌,
}
use forks_seaweedfs_csi_driv.Common.Text.{has_prefix, trim_prefix, before_char, any_char, join}
use forks_seaweedfs_csi_driv.Common.Paths.{join_clean, base}
use forks_seaweedfs_csi_driv.Common.Decimal.{ℤ, pos, negsuc, format_int}
use forks_seaweedfs_csi_driv.Common.Dict.{Dict, insert, get_or_empty, has_key, or_else}
use forks_seaweedfs_csi_driv.Common.Failure.{Failure, Result, ok, err, failure}
use forks_seaweedfs_csi_driv.Driver.Params.{
  DataLocality, none_, write_prefer_local_dc, from_string, quoted,
}
use forks_seaweedfs_csi_driv.Driver.Quota.{initial_collection_quota_mb}

-- The fields of SeaweedFsDriver that the arguments come from, and os.TempDir().
pub record Settings : Type 0 where
  pub filers : List String
  pub cache_dir : String
  pub temp_dir : String
  pub cache_capacity_mb : ℤ
  pub cache_meta_ttl_sec : ℤ
  pub concurrent_readers : ℤ
  pub concurrent_writers : ℤ
  pub write_buffer_size_mb : ℤ
  pub uid_map : String
  pub gid_map : String
  pub data_center : String
  pub data_locality : DataLocality
  pub mount_extra_args : List String

-- The name of a flag: what stands before the first equals sign, without a leading dash.
unfoldable pub flag_of : String → String
flag_of arg = before_char b'=' (trim_prefix arg "-")

abbrev pub managed_flags : List String
managed_flags =
    "dir" ∷ "dirAutoCreate" ∷ "localSocket" ∷ "cacheDir" ∷ "readOnly" ∷ "filer" ∷ "filer.path"
    ∷ "collection" ∷ "collectionQuotaMB" ∷ "winfspMountRoots" ∷ []

is_blank : ℕ → Bool
is_blank c = eqb c 32 || (eqb c 9 || (eqb c 13 || eqb c 10))

is_malformed : String → String → Bool
unfolding is_blank
is_malformed arg name =
    not (has_prefix arg "-") || (name == "" || (has_prefix name "-" || any_char is_blank name))

-- One round of ValidateMountArgs.
unfoldable pub validate_arg : String → String → Option Failure
unfolding is_malformed
validate_arg arg name =
    if is_malformed arg name
    then some (
        failure ("invalid mount argument " <> (quoted arg <> ": use -name=value or boolean -name")))
    else if member name managed_flags
    then some (failure ("mount argument " <> (quoted name <> " is managed by the CSI driver")))
    else none

-- ValidateMountArgs
unfoldable pub validate_mount_args : List String → Option Failure
unfolding validate_arg flag_of
validate_mount_args [] = none
validate_mount_args (arg ∷ args) =
    let rest = validate_mount_args args in or_else (validate_arg arg (flag_of arg)) rest

-- SharedChunkCacheDir
unfoldable pub shared_chunk_cache_dir : String → String → String
shared_chunk_cache_dir temp_dir cache_base =
    join_clean (if cache_base == "" then temp_dir else cache_base) "chunks"

-- writeBufferSizeArg
unfoldable pub write_buffer_size_arg : ℤ → String
write_buffer_size_arg (pos n) = if eqb n 0 then "" else format_int (pos n)
write_buffer_size_arg (negsuc n) = ""

-- platformMountArgs on Linux
abbrev pub platform_mount_args : List String
platform_mount_args = "-umask=000" ∷ []

-- Where the volume lies on the filer: an absolute volume ID is the path.
unfoldable pub filer_path : String → Dict String → String
filer_path id context =
    let given = get_or_empty "path" context in
    if has_prefix id "/" then id else if given == "" then join_clean "/buckets" id else given

unfoldable pub collection : String → Dict String → String
collection path context =
    let given = get_or_empty "collection" context in if given == "" then base path else given

-- `-<name>=<value>`
unfoldable pub flag : String → String → String
flag name value = "-" <> (name <> ("=" <> value))

-- The flags that the volume context may set, with their values by default, but for two.
unfoldable pub other_defaults : Settings → String → Dict String → Dict String
unfolding write_buffer_size_arg filer_path
other_defaults s id context =
    ("df.logical", "true")
    ∷ ("filer", join "," s.filers)
    ∷ ("filer.path", filer_path id context)
    ∷ ("cacheCapacityMB", format_int s.cache_capacity_mb)
    ∷ ("wholeCacheCapacityMB", "")
    ∷ ("readerCacheSizeMB", "")
    ∷ ("cacheMetaTtlSec", format_int s.cache_meta_ttl_sec)
    ∷ ("concurrentReaders", format_int s.concurrent_readers)
    ∷ ("concurrentWriters", format_int s.concurrent_writers)
    ∷ ("writeBufferSizeMB", write_buffer_size_arg s.write_buffer_size_mb)
    ∷ ("readerCacheMode", "")
    ∷ ("winfspOptions", "")
    ∷ ("map.uid", s.uid_map)
    ∷ ("map.gid", s.gid_map)
    ∷ ("disk", "")
    ∷ ("dataCenter", "")
    ∷ ("replication", "")
    ∷ ("ttl", "")
    ∷ ("chunkSizeLimitMB", "")
    ∷ ("volumeServerAccess", "")
    ∷ ("readRetryTime", "")
    ∷ ("writebackCache", "")
    ∷ ("metadataFlushSeconds", "")
    ∷ ("dlm", "")
    ∷ []

unfoldable pub default_args : Settings → String → Dict String → Dict String
unfolding other_defaults filer_path collection
default_args s id context =
    ("collection", collection (filer_path id context) context)
    ∷ ("collectionQuotaMB", initial_collection_quota_mb (get_or_empty "volumeCapacity" context))
    ∷ other_defaults s id context

-- The data locality that holds for the volume; none for a text that names none.
unfoldable pub locality_of : Settings → Dict String → Option DataLocality
locality_of s context =
    let given = get_or_empty "dataLocality" context in
    if given == "" then some s.data_locality else from_string given

unfoldable pub data_center_of : Settings → Dict String → String
data_center_of s context =
    let given = get_or_empty "dataCenter" context in if given == "" then s.data_center else given

-- CheckDataLocality
unfoldable pub check_data_locality : DataLocality → String → Option Failure
check_data_locality none_ data_center = none
check_data_locality write_prefer_local_dc data_center =
    if data_center == ""
    then some (failure "dataLocality set, but not all locality-definitions were set")
    else none

unfoldable pub with_locality : DataLocality → String → Dict String → Dict String
with_locality none_ data_center args = args
with_locality write_prefer_local_dc data_center args = insert "dataCenter" data_center args

-- The flag that a parameter of the volume sets.
unfoldable pub mapped : String → String
mapped key =
    if key == "uidMap"
    then "map.uid"
    else if key == "gidMap"
    then "map.gid"
    else if key == "diskType"
    then "disk"
    else key

unfoldable pub is_ignored : String → Bool
is_ignored key = member key (
    "collectionQuotaMB" ∷ "dataLocality" ∷ "path" ∷ "parentDir" ∷ "volumeName" ∷ "volumeCapacity"
    ∷ "sharedChunkCacheDir" ∷ [])

unfoldable pub set_known : String → String → Dict String → Dict String
set_known name value args =
    if has_key name args && not (value == "") then insert name value args else args

unfoldable pub set_parameter : String → String → Dict String → Dict String
unfolding set_known
set_parameter key value args = if is_ignored key then args else set_known (mapped key) value args

-- The loop over the volume context.
unfoldable pub overlay : Dict String → Dict String → Dict String
unfolding set_parameter
overlay args [] = args
overlay args ((key, value) ∷ context) = overlay (set_parameter key value args) context

-- The loop that prints the flags that have a value.
unfoldable pub print_args : Dict String → List String
unfolding flag
print_args [] = []
print_args ((name, value) ∷ args) =
    let rest = print_args args in if value == "" then rest else flag name value ∷ rest

unfoldable pub read_only_arg : Bool → List String
read_only_arg true = "-readOnly" ∷ []
read_only_arg false = []

module _ (s : Settings) (id : String) (read_only : Bool) (context : Dict String) where
  module _ (target cache_dir local_socket : String) where
    unfoldable pub fixed_args : List String
    unfolding flag shared_chunk_cache_dir read_only_arg
    fixed_args =
        "-logtostderr=true"
        ∷ "mount"
        ∷ "-dirAutoCreate=true"
        ∷ (platform_mount_args
            ++ (flag "dir" target
                ∷ flag "localSocket" local_socket
                ∷ flag "cacheDir" cache_dir
                ∷ flag "sharedChunkCacheDir" (shared_chunk_cache_dir s.temp_dir s.cache_dir)
                ∷ read_only_arg read_only))

    unfoldable pub all_args : DataLocality → String → List String
    unfolding fixed_args print_args overlay with_locality default_args
    all_args locality data_center =
        fixed_args
        ++ (print_args
              (overlay (with_locality locality data_center (default_args s id context)) context)
            ++ s.mount_extra_args)

    unfoldable pub unless_locality : Option Failure → DataLocality → String → Result (List String)
    unfolding all_args
    unless_locality (some e) locality data_center = err e
    unless_locality none locality data_center = ok (all_args locality data_center)

    unfoldable pub for_locality : Option DataLocality → Result (List String)
    unfolding unless_locality check_data_locality data_center_of
    for_locality none =
        err
          (failure ("invalid volumeContext dataLocality: " <> get_or_empty "dataLocality" context))
    for_locality (some locality) =
        unless_locality (check_data_locality locality (data_center_of s context)) locality
          (data_center_of s context)

    unfoldable pub unless_invalid : Option Failure → Result (List String)
    unfolding for_locality locality_of
    unless_invalid (some e) = err e
    unless_invalid none = for_locality (locality_of s context)

    -- buildMountArgs
    unfoldable pub build_mount_args : Result (List String)
    unfolding unless_invalid validate_mount_args
    build_mount_args = unless_invalid (validate_mount_args s.mount_extra_args)
