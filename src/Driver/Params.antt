-- ===== src/Driver/Params.antt =====
-- The parameters of a volume: pkg/driver/controllerserver.go (mutable parameters and their
-- validation), pkg/datalocality/mapping.go, and the merge of persisted parameters in vacstore.go.
pub mod Accepted
use forks_seaweedfs_csi_driv.Common.{
  String, ◌<>◌, Bool, true, false, ◌&&◌, Option, none, some, List, [], ◌∷◌, ◌==◌, member,
  if◌then◌else◌,
}
use forks_seaweedfs_csi_driv.Common.Text.{equals_lower, parse_bool, join}
use forks_seaweedfs_csi_driv.Common.Decimal.{parse_int}
use forks_seaweedfs_csi_driv.Common.Dict.{Dict, lookup, insert, get_or_empty}

pub data DataLocality : Type 0 where
  none_ write_prefer_local_dc : DataLocality

-- datalocality.FromString
unfoldable pub from_string : String → Option DataLocality
from_string s =
    if equals_lower s "none"
    then some none_
    else if equals_lower s "write_preferlocaldc"
    then some write_prefer_local_dc
    else none

-- mutableMountParameters
abbrev pub mutable_mount_parameters : List String
mutable_mount_parameters =
    "diskType" ∷ "replication" ∷ "ttl" ∷ "dataCenter" ∷ "dataLocality" ∷ "uidMap" ∷ "gidMap"
    ∷ "chunkSizeLimitMB" ∷ "volumeServerAccess" ∷ "readRetryTime" ∷ "concurrentReaders"
    ∷ "concurrentWriters" ∷ "cacheCapacityMB" ∷ "wholeCacheCapacityMB" ∷ "readerCacheSizeMB"
    ∷ "cacheMetaTtlSec" ∷ "writebackCache" ∷ "metadataFlushSeconds" ∷ "dlm" ∷ []

unfoldable pub is_mutable : String → Bool
is_mutable key = member key mutable_mount_parameters

-- The keys whose values are integers.
abbrev integer_parameters : List String
integer_parameters =
    "concurrentReaders" ∷ "concurrentWriters" ∷ "cacheCapacityMB" ∷ "wholeCacheCapacityMB"
    ∷ "readerCacheSizeMB" ∷ "cacheMetaTtlSec" ∷ "chunkSizeLimitMB" ∷ "metadataFlushSeconds" ∷ []

-- `%q`, without its escapes.
abbrev pub quoted : String → String
quoted s = "\"" <> (s <> "\"")

-- validateMutableParameterValues: the error's text.
unfoldable pub validate_value : String → String → Option String
unfolding from_string
validate_value key value =
    if value == ""
    then none
    else if key == "dataLocality"
    then elim (from_string value) [
      | some d ↦ none
      | none ↦ some ("invalid dataLocality " <> quoted value)
    ]
    else if member key integer_parameters
    then elim (parse_int value) [
      | some n ↦ none
      | none ↦ some (key <> (" must be an integer, got " <> quoted value))
    ]
    else if member key ("writebackCache" ∷ "dlm" ∷ [])
    then elim (parse_bool value) [
      | some b ↦ none
      | none ↦ some (key <> (" must be a boolean, got " <> quoted value))
    ]
    else none

-- A text that is a Boolean and says true.
is_on : String → Bool
is_on s = elim (parse_bool s) [ none ↦ false | some b ↦ b ]

-- validateWritebackDlmCombo
unfoldable pub validate_writeback_dlm_combo : Dict String → Option String
unfolding is_on
validate_writeback_dlm_combo params =
    if is_on (get_or_empty "writebackCache" params) && is_on (get_or_empty "dlm" params)
    then some
        "writebackCache and dlm are mutually exclusive: weed mount disables the distributed lock manager when writeback caching is enabled"
    else none

-- The two lists of validateMutableParameters.
pub record Rejected : Type 0 where
  pub unknown : List String
  pub invalid : List String

unfoldable pub reject : Dict String → Rejected
reject [] = record { unknown = []; invalid = [] }
reject ((key, value) ∷ params) =
    let rest = reject params in
    if is_mutable key
    then elim (validate_value key value) [
      | none ↦ rest
      | some e ↦ record rest { invalid = e ∷ rest.invalid }
    ]
    else record rest { unknown = key ∷ rest.unknown }

-- The end of validateMutableParameters: unknown keys first, then invalid values, then the combination.
judge : Dict String → Rejected → Option String
judge params r = elim r.unknown [
  | u ∷ us ↦ some (
      "parameters are not modifiable on SeaweedFS volumes (structural or unknown): "
      <> join ", " (u ∷ us))
  | [] ↦ elim r.invalid [
    | i ∷ is_ ↦ some ("invalid parameter values: " <> join "; " (i ∷ is_))
    | [] ↦ validate_writeback_dlm_combo params
  ]
]

-- validateMutableParameters
unfoldable pub validate_mutable_parameters : Dict String → Option String
unfolding reject judge
validate_mutable_parameters params = judge params (reject params)

-- validateConstrainedParameterValues
unfoldable pub validate_constrained_values : Dict String → Option String
validate_constrained_values [] = none
validate_constrained_values ((key, value) ∷ params) =
    let rest = validate_constrained_values params in
    if is_mutable key
    then elim (validate_value key value) [ none ↦ rest | some e ↦ some e ]
    else rest

-- mergePersistedVolumeAttributes
unfoldable pub merge_persisted : Dict String → Dict String → Dict String
merge_persisted context [] = context
merge_persisted context ((key, value) ∷ persisted) =
    merge_persisted (if is_mutable key then insert key value context else context) persisted

-- The loop of ControllerModifyVolume over the attributes of the PV.
unfoldable pub keep_mutable : Dict String → Dict String → Dict String
keep_mutable effective [] = effective
keep_mutable effective ((key, value) ∷ attrs) =
    keep_mutable (if is_mutable key then insert key value effective else effective) attrs
