-- ===== src/Driver/Controller/Provision.antt =====
-- CreateVolume and ValidateVolumeCapabilities of pkg/driver/controllerserver.go, with the requests
-- that do nothing, and the capabilities of pkg/driver/driver.go. Volume names are ASCII. SHA-1 in
-- hexadecimal, the filer's check of a bucket name and the filer itself are parameters.
pub mod Returned
pub mod Names
mod Tests
use Prim.Native.Char.{Char, code}
use Prim.Native.String
use Prim.Native.String.{count}
use forks_seaweedfs_csi_driv.Common.{
  ℕ, zero, suc, ◌+◌, String, ◌<>◌, Bool, true, false, ◌&&◌, ◌||◌, not, Option, none, some, List, [],
  ◌∷◌, ◌==◌, eqb, leb, ltb, if◌then◌else◌,
}
use forks_seaweedfs_csi_driv.Common.Text.{has_prefix, lower}
use forks_seaweedfs_csi_driv.Common.Chars.{char_of}
use forks_seaweedfs_csi_driv.Common.Paths.{clean, join_clean, parent_of, base}
use forks_seaweedfs_csi_driv.Common.Decimal.{ℤ, pos, negsuc, format_int}
use forks_seaweedfs_csi_driv.Common.Dict.{Dict, insert, insert_all, get_or_empty}
use forks_seaweedfs_csi_driv.Common.Failure.{
  Failure, Result, ok, err, failure, status_error, invalid_argument, not_found,
}
use forks_seaweedfs_csi_driv.Driver.Params.{validate_mutable_parameters}
use forks_seaweedfs_csi_driv.Driver.Controller.Deletion.{place_of_id}

-- csi.VolumeCapability_AccessMode_Mode
pub data Mode : Type 0 where
  unknown_mode single_node_writer single_node_reader_only multi_node_reader_only : Mode
  multi_node_single_writer multi_node_multi_writer : Mode
  single_node_single_writer single_node_multi_writer : Mode

mode_number : Mode → ℕ
mode_number unknown_mode = 0
mode_number single_node_writer = 1
mode_number single_node_reader_only = 2
mode_number multi_node_reader_only = 3
mode_number multi_node_single_writer = 4
mode_number multi_node_multi_writer = 5
mode_number single_node_single_writer = 6
mode_number single_node_multi_writer = 7

unfoldable pub same_mode : Mode → Mode → Bool
unfolding mode_number
same_mode a b = eqb (mode_number a) (mode_number b)

-- The access modes that NewSeaweedFsDriver enables.
abbrev pub enabled_modes : List Mode
enabled_modes =
    multi_node_multi_writer ∷ single_node_writer ∷ single_node_multi_writer
    ∷ single_node_single_writer ∷ []

has_mode : List Mode → Mode → Bool
has_mode [] mode = false
has_mode (c ∷ modes) mode = same_mode c mode || has_mode modes mode

-- isValidVolumeCapabilities
unfoldable pub is_valid_volume_capabilities : List Mode → List Mode → Bool
unfolding has_mode same_mode
is_valid_volume_capabilities modes [] = true
is_valid_volume_capabilities modes (c ∷ caps) =
    has_mode modes c && is_valid_volume_capabilities modes caps

-- `strings.ToLower` of an ASCII text
unfoldable pub to_lower : String → String
to_lower String.[] = String.[]
to_lower (String.◌∷◌ c s) = String.◌∷◌ (char_of (lower (code c))) (to_lower s)

-- What `[^-.a-zA-Z0-9]` does not match.
unfoldable pub is_safe : ℕ → Bool
is_safe c =
    eqb c b'-'
    || (eqb c b'.'
        || (leb b'a' c && leb c b'z' || (leb b'A' c && leb c b'Z' || leb b'0' c && leb c b'9')))

-- unsafeVolumeIdChars.ReplaceAllString(s, "-")
unfoldable pub replace_unsafe : String → String
unfolding is_safe
replace_unsafe String.[] = String.[]
replace_unsafe (String.◌∷◌ c s) =
    String.◌∷◌ (if is_safe (code c) then c else "-") (replace_unsafe s)

unfoldable pub first_chars : ℕ → String → String
first_chars zero s = String.[]
first_chars (suc n) String.[] = String.[]
first_chars (suc n) (String.◌∷◌ c s) = String.◌∷◌ c (first_chars n s)

-- The filer client of CreateVolume and ValidateVolumeCapabilities: Mkdir with the mark that keeps
-- empty folders, and Exists. `sha1_hex` and `is_bucket_name` are pure.
pub record Filer (F : Type 0) : Type 0 where
  pub sha1_hex : String → String
  pub is_bucket_name : String → Bool
  pub mkdir : String → String → F → Option Failure × F
  pub exists : F → String → String → Result Bool

pub record CreateRequest : Type 0 where
  pub name : String
  pub parameters : Dict String
  pub mutable_parameters : Dict String
  pub capabilities : Option (List Mode)
  pub required_bytes : ℤ
  pub requisite : List String
  pub preferred : List String

pub record Created : Type 0 where
  pub volume_id : String
  pub capacity_bytes : ℤ
  pub volume_context : Dict String
  pub topology : List String

-- Where a volume is made.
pub record Place : Type 0 where
  pub path : String
  pub parent : String
  pub name : String

-- accessibleTopology
unfoldable pub accessible_topology : List String → List String → List String
accessible_topology [] preferred = preferred
accessible_topology (t ∷ requisite) preferred = t ∷ requisite

module _ {F : Type 0} (filer : Filer F) where
  open filer use {sha1_hex, is_bucket_name, mkdir, exists}

  unfoldable pub shortened : String → String
  shortened id = if ltb 63 (count id) then sha1_hex id else id

  unfoldable pub bucket_name : String → String
  unfolding first_chars replace_unsafe to_lower
  bucket_name id =
      if is_bucket_name id
      then id
      else first_chars 21 (replace_unsafe (to_lower id)) <> ("." <> sha1_hex id)

  -- sanitizeVolumeIdS3
  unfoldable pub sanitize_volume_id_s3 : String → String
  unfolding bucket_name shortened to_lower
  sanitize_volume_id_s3 id = bucket_name (shortened (to_lower id))

  unfoldable pub in_directory : String → String → Place
  unfolding sanitize_volume_id_s3 join_clean
  in_directory parent requested =
      let name = if parent == "/buckets" then sanitize_volume_id_s3 requested else requested in
      record { path = join_clean parent name; parent = parent; name = name }

  unfoldable pub at_given_path : String → Place
  unfolding parent_of base
  at_given_path path = record { path = path; parent = parent_of path; name = base path }

  -- The path, the parent directory and the name of a new volume.
  unfoldable pub place_of : Dict String → String → Place
  unfolding in_directory at_given_path clean
  place_of params requested =
      let given = get_or_empty "path" params in
      let dir = get_or_empty "parentDir" params in
      if given == ""
      then in_directory (if dir == "" then "/buckets" else dir) requested
      else at_given_path (clean given)

  unfoldable pub with_capacity_of : ℤ → Dict String → Dict String
  with_capacity_of (pos n) params =
      if eqb n 0 then params else insert "volumeCapacity" (format_int (pos n)) params
  with_capacity_of (negsuc n) params = params

  unfoldable pub response : CreateRequest → Place → Dict String → Created
  response req place params = record {
    volume_id = place.path;
    capacity_bytes = req.required_bytes;
    volume_context = with_capacity_of req.required_bytes params;
    topology = accessible_topology req.requisite req.preferred;
  }

  unfoldable pub after_mkdir :
      CreateRequest → Place → Dict String → Option Failure × F → Result Created × F
  after_mkdir req place params (some e, f) =
      (err (failure ("error creating volume: " <> e.text)), f)
  after_mkdir req place params (none, f) = (ok (response req place params), f)

  unfoldable pub check_capabilities :
      CreateRequest → Place → Dict String → Option (List Mode) → F → Result Created × F
  unfolding after_mkdir response with_capacity_of
  check_capabilities req place params none f =
      (err (status_error invalid_argument "Volume Capabilities missing in request"), f)
  check_capabilities req place params (some caps) f =
      after_mkdir req place params (mkdir place.parent place.name f)

  unfoldable pub merge_mutable : CreateRequest → Place → Option String → F → Result Created × F
  unfolding check_capabilities
  merge_mutable req place (some message) f = (err (status_error invalid_argument message), f)
  merge_mutable req place none f =
      let named = insert "volumeName" place.name (insert "parentDir" place.parent req.parameters) in
      check_capabilities req place (insert_all named req.mutable_parameters) req.capabilities f

  unfoldable pub validated_parameters : Dict String → Option String
  validated_parameters [] = none
  validated_parameters (p ∷ params) = validate_mutable_parameters (p ∷ params)

  -- CreateVolume; the driver always has the capability that it asks for.
  unfoldable pub create_volume : CreateRequest → F → Result Created × F
  unfolding merge_mutable validated_parameters
  create_volume req f =
      if req.name == ""
      then (err (status_error invalid_argument "Name missing in request"), f)
      else merge_mutable req (place_of req.parameters req.name)
          (validated_parameters req.mutable_parameters) f

  -- Some capability asks for another mode.
  unfoldable pub asks_for_other : List Mode → Bool
  asks_for_other [] = false
  asks_for_other (c ∷ caps) = not (same_mode c single_node_writer) || asks_for_other caps

  -- A message, or the capabilities that are confirmed; both may be missing.
  judged : List Mode → Result (String × Option (List Mode))
  judged caps =
      if asks_for_other caps then ok ("Only single node writer is supported", none) else elim caps [
        | [] ↦ err (status_error invalid_argument "Volume capabilities not provided")
        | c ∷ rest ↦ ok (
          "",
          if is_valid_volume_capabilities enabled_modes (c ∷ rest) then some (c ∷ rest) else none,
        )
      ]

  if_exists : String → List Mode → Result Bool → Result (String × Option (List Mode))
  unfolding judged
  if_exists id caps (err e) =
      err (failure ("error checking bucket " <> (id <> (" exists: " <> e.text))))
  if_exists id caps (ok false) =
      err (status_error not_found ("Volume with id " <> (id <> " does not exist")))
  if_exists id caps (ok true) = judged caps

  -- ValidateVolumeCapabilities
  unfoldable pub validate_volume_capabilities :
      String → Option (List Mode) → F → Result (String × Option (List Mode))
  unfolding if_exists
  validate_volume_capabilities id none f =
      if id == ""
      then err (status_error invalid_argument "Volume ID missing in request")
      else err (status_error invalid_argument "Volume capabilities missing in request")
  validate_volume_capabilities id (some caps) f =
      let (dir, name) = place_of_id id in
      if id == ""
      then err (status_error invalid_argument "Volume ID missing in request")
      else if_exists id caps (exists f dir name)

-- ControllerPublishVolume
unfoldable pub controller_publish_volume : String → String → Result (Unit {0})
controller_publish_volume id node =
    if id == ""
    then err (status_error invalid_argument "Volume ID missing in request")
    else if node == ""
    then err (status_error invalid_argument "Node ID missing in request")
    else ok tt

-- ControllerUnpublishVolume
unfoldable pub controller_unpublish_volume : String → Result (Unit {0})
controller_unpublish_volume id =
    if id == "" then err (status_error invalid_argument "Volume ID missing in request") else ok tt

-- ControllerExpandVolume: the capacity asked for, and that the node has to expand.
unfoldable pub controller_expand_volume : ℤ → ℤ × Bool
controller_expand_volume required_bytes = (required_bytes, true)
