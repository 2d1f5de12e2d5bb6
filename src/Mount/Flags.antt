-- ===== src/Mount/Flags.antt =====
-- pkg/mountmanager/mount_flags.go: the mount service adapts the arguments that the node plugin sends
-- to the flags that its own weed binary defines.
pub mod Filtering
pub mod Help
mod Tests
use forks_seaweedfs_csi_driv.Common.{
  ℕ, String, ◌<>◌, Bool, true, false, ◌||◌, not, Option, none, some, List, [], ◌∷◌, ◌++◌, ◌==◌,
  member, if◌then◌else◌,
}
use forks_seaweedfs_csi_driv.Common.Text.{has_prefix, trim_prefix, before_char, join}
use forks_seaweedfs_csi_driv.Common.Failure.{Result, ok, err, failure}

abbrev pub required_mount_flags : List String
required_mount_flags =
    "dir" ∷ "dirAutoCreate" ∷ "filer" ∷ "filer.path" ∷ "collection" ∷ "collectionQuotaMB"
    ∷ "readOnly" ∷ "localSocket" ∷ "cacheDir" ∷ "umask" ∷ "winfspMountRoots" ∷ "map.uid" ∷ "map.gid"
    ∷ "replication" ∷ "ttl" ∷ "disk" ∷ "dlm" ∷ []

-- What the mount service's weed binary accepts.
pub record WeedMountFlags : Type 0 where
  pub defined : List String
  pub version : String

-- The flag name of a `-name` or `-name=value` argument, with one or two dashes.
unfoldable pub mount_flag_name : String → String
mount_flag_name arg = before_char b'=' (trim_prefix (trim_prefix arg "-") "-")

-- The arguments up to the `mount` subcommand, with it, and those behind it; `none` is
-- `mountIndex < 0`.
unfoldable pub split_at_mount : List String → Option (List String × List String)
split_at_mount [] = none
split_at_mount (arg ∷ args) =
    if arg == "mount" then some (arg ∷ [], args) else elim (split_at_mount args) [
      | none ↦ none
      | some (global, rest) ↦ some (arg ∷ global, rest)
    ]

pub record Sifted : Type 0 where
  pub filtered : List String
  pub missing : List String
  pub dropped : List String

-- `_, ok := flags.defined[name]; ok || !strings.HasPrefix(arg, "-")`
unfoldable pub is_accepted : WeedMountFlags → String → Bool
is_accepted flags arg = member (mount_flag_name arg) flags.defined || not (has_prefix arg "-")

-- `requiredSet`: the list of this build and the one that came with the request.
unfoldable pub is_required : List String → String → Bool
is_required required arg =
    member (mount_flag_name arg) required_mount_flags || member (mount_flag_name arg) required

-- The loop over the arguments behind `mount`.
unfoldable pub sift : WeedMountFlags → List String → List String → Sifted
sift flags required [] = record { filtered = []; missing = []; dropped = [] }
sift flags required (arg ∷ args) =
    let rest = sift flags required args in
    if is_accepted flags arg
    then record rest { filtered = arg ∷ rest.filtered }
    else if is_required required arg
    then record rest { missing = ("-" <> mount_flag_name arg) ∷ rest.missing }
    else record rest { dropped = arg ∷ rest.dropped }

missing_error : WeedMountFlags → List String → String
missing_error flags missing =
    "weed mount ("
    <> (flags.version
        <> (") in the mount service does not define required flag(s) "
            <> (join ", " missing
                <> "; the seaweedfs-mount image is older than the CSI node plugin needs")))

-- The end of `filterMountArgs`: an error that names every missing flag, or the kept arguments.
conclude : WeedMountFlags → List String → Sifted → Result (List String)
conclude flags global s = elim s.missing [
  | [] ↦ ok (global ++ s.filtered)
  | m ∷ ms ↦ err (failure (missing_error flags (m ∷ ms)))
]

unfoldable pub filter_mount_args : List String → WeedMountFlags → List String → Result (List String)
unfolding conclude missing_error
filter_mount_args args flags required = elim (split_at_mount args) [
  | none ↦ ok args
  | some (global, rest) ↦ conclude flags global (sift flags required rest)
]
