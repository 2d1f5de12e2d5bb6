-- ===== src/Driver/Controller/Provision/Tests.antt =====
-- A bucket that is made for a volume.
use forks_seaweedfs_csi_driv.Common.{
  String, ◌≡◌, refl, true, false, none, some, List, [], ◌∷◌, ◌==◌, if◌then◌else◌,
}
use forks_seaweedfs_csi_driv.Common.Chars.{char_of}
use forks_seaweedfs_csi_driv.Common.Paths.{clean}
use forks_seaweedfs_csi_driv.Common.Decimal.{pos}
use forks_seaweedfs_csi_driv.Common.Dict.{get_or_empty, lookup, insert, insert_all}
use forks_seaweedfs_csi_driv.Common.Failure.{ok}
use forks_seaweedfs_csi_driv.Driver.Controller.Deletion.{place_of_id}
use forks_seaweedfs_csi_driv.Driver.Controller.Provision.{
  single_node_writer, multi_node_multi_writer, Filer, CreateRequest, Created, place_of,
  create_volume, sanitize_volume_id_s3, validate_volume_capabilities, asks_for_other, same_mode,
  accessible_topology,
}
use forks_seaweedfs_csi_driv.Driver.Controller.Provision.Names.{IsName, IsDirectory}
use forks_seaweedfs_csi_driv.Driver.Controller.Provision.Returned.{IsPlaced, created_volume_found}

-- The directories that were made; a name with a blank is no bucket's.
abbrev filer : Filer (List (String × String))
filer = record {
  sha1_hex = λ text. "da39a3ee5e6b4b0d3255bfef95601890afd80709";
  is_bucket_name = λ name. if name == "my volume" then false else true;
  mkdir = λ dir name made. (none, (dir, name) ∷ made);
  exists = λ made dir name. ok true;
}

sanitized :
    sanitize_volume_id_s3 filer "My Volume" ≡ "my-volume.da39a3ee5e6b4b0d3255bfef95601890afd80709"
unfolding sanitize_volume_id_s3 char_of
sanitized = refl

-- Of the modes that the driver enables, only one is confirmed.
one_mode :
    validate_volume_capabilities filer "/buckets/pvc-1" (some (multi_node_multi_writer ∷ [])) []
    ≡ ok ("Only single node writer is supported", none)
unfolding validate_volume_capabilities place_of_id asks_for_other same_mode
one_mode = refl

abbrev wanted : CreateRequest
wanted = record {
  name = "pvc-1";
  parameters = [];
  mutable_parameters = [];
  capabilities = some (single_node_writer ∷ []);
  required_bytes = pos 0;
  requisite = [];
  preferred = "zone-a" ∷ [];
}

abbrev bucket : Created
bucket = record {
  volume_id = "/buckets/pvc-1";
  capacity_bytes = pos 0;
  volume_context = ("parentDir", "/buckets") ∷ ("volumeName", "pvc-1") ∷ [];
  topology = "zone-a" ∷ [];
}

made : create_volume filer wanted [] ≡ (ok bucket, ("/buckets", "pvc-1") ∷ [])
unfolding create_volume place_of get_or_empty lookup insert insert_all accessible_topology char_of
made = refl

pvc-IsName : IsName "pvc-1"
pvc-IsName = record { no_slash = refl; not_empty = λ e. cc; not_dot = λ e. cc; not_dots = λ e. cc }

buckets-IsDirectory : IsDirectory "/buckets"
unfolding clean
buckets-IsDirectory = record {
  rest = "buckets";
  rooted = refl;
  is_clean = refl;
  not_root = λ e. cc;
}

pvc-IsPlaced : IsPlaced filer (place_of filer [] "pvc-1")
unfolding place_of get_or_empty lookup char_of
pvc-IsPlaced = record { absolute = refl; directory = buckets-IsDirectory; name = pvc-IsName }

created_volume_found_example :
    (dir : String) × (name : String) × (filer.mkdir dir name []
      ≡ (none, ("/buckets", "pvc-1") ∷ []))
    × (place_of_id "/buckets/pvc-1" ≡ (dir, name))
created_volume_found_example =
    created_volume_found filer wanted [] (("/buckets", "pvc-1") ∷ []) bucket made pvc-IsPlaced
