-- ===== src/Driver/Controller/Provision/Returned.antt =====
-- What CreateVolume of pkg/driver/controllerserver.go returns leads back to the directory it made.
use forks_seaweedfs_csi_driv.Common.{
  String, ◌≡◌, refl, sym, ap, ◌∙◌, Bool, true, false, Option, none, some, List, ◌==◌, if◌then◌else◌,
}
use forks_seaweedfs_csi_driv.Common.Text.{has_prefix}
use forks_seaweedfs_csi_driv.Common.Paths.{clean, join_clean, parent_of, base}
use forks_seaweedfs_csi_driv.Common.Dict.{Dict, get_or_empty}
use forks_seaweedfs_csi_driv.Common.Failure.{Failure, Result, ok, err}
use forks_seaweedfs_csi_driv.Driver.Controller.Deletion.{place_of_id}
use forks_seaweedfs_csi_driv.Driver.Controller.Provision.{
  Mode, Filer, CreateRequest, Created, Place, in_directory, at_given_path, place_of, response,
  after_mkdir, check_capabilities, merge_mutable, create_volume,
}
use forks_seaweedfs_csi_driv.Driver.Controller.Provision.Names.{
  IsName, IsDirectory, join_clean-name, parent_of-below, base-below,
}

rooted_place : (id : String) → has_prefix id "/" ≡ true → place_of_id id ≡ (parent_of id, base id)
unfolding place_of_id
rooted_place id h = rw h

module _ {F : Type 0} (filer : Filer F) where
  -- The place is an absolute path: a name in a clean directory.
  pub record IsPlaced (p : Place) : Type 0 where
    pub absolute : has_prefix p.path "/" ≡ true
    pub directory : IsDirectory p.parent
    pub name : IsName p.name

  -- Where a place leads back to.
  abbrev IsFound : Place → Type 0
  IsFound p = place_of_id p.path ≡ (p.parent, p.name)

  joined-IsFound :
      (parent name : String)
      → IsPlaced (record { path = join_clean parent name; parent = parent; name = name })
      → IsFound (record { path = join_clean parent name; parent = parent; name = name })
  joined-IsFound parent name h =
      let whole = join_clean-name parent h.directory name h.name in
      rooted_place (join_clean parent name) h.absolute
      ∙ ap (λ id. (parent_of id, base id)) whole
      ∙ rw (
        parent_of-below parent h.directory name h.name,
        base-below parent h.directory name h.name,
      )

  in_directory-IsFound :
      (parent requested : String)
      → IsPlaced (in_directory filer parent requested)
      → IsFound (in_directory filer parent requested)
  unfolding in_directory
  in_directory-IsFound parent requested h = joined-IsFound parent _ h

  chosen-IsFound :
      (implicit : Bool) (dir requested given : String)
      → IsPlaced (if implicit then in_directory filer dir requested else at_given_path filer given)
      → IsFound (if implicit then in_directory filer dir requested else at_given_path filer given)
  chosen-IsFound true dir requested given h = in_directory-IsFound dir requested h
  chosen-IsFound false dir requested given h = unfold at_given_path in rooted_place given h.absolute

  place_of-IsFound :
      (params : Dict String) (requested : String)
      → IsPlaced (place_of filer params requested)
      → IsFound (place_of filer params requested)
  unfolding place_of
  place_of-IsFound params requested h =
      let dir = get_or_empty "parentDir" params in
      chosen-IsFound (get_or_empty "path" params == "") (if dir == "" then "/buckets" else dir)
        requested (clean (get_or_empty "path" params)) h

  mkdir_passed :
      (req : CreateRequest) (place : Place) (params : Dict String) (r : Option Failure) (f g : F)
      (made : Created)
      → after_mkdir filer req place params (r, f) ≡ (ok made, g)
      → (r ≡ none) × (f ≡ g) × (response filer req place params ≡ made)
  unfolding after_mkdir
  mkdir_passed req place params none f g made e = (refl, cc, cc)
  mkdir_passed req place params (some x) f g made e = cc

  capabilities_passed :
      (req : CreateRequest) (place : Place) (params : Dict String) (caps : Option (List Mode))
      (f g : F) (made : Created)
      → check_capabilities filer req place params caps f ≡ (ok made, g)
      → after_mkdir filer req place params (filer.mkdir place.parent place.name f) ≡ (ok made, g)
  unfolding check_capabilities
  capabilities_passed req place params none f g made e = cc
  capabilities_passed req place params (some caps) f g made e = e

  merge_passed :
      (req : CreateRequest) (place : Place) (o : Option String) (f g : F) (made : Created)
      → merge_mutable filer req place o f ≡ (ok made, g)
      → (filer.mkdir place.parent place.name f ≡ (none, g)) × (made.volume_id ≡ place.path)
  unfolding merge_mutable response
  merge_passed req place (some message) f g made e = cc
  merge_passed req place none f g made e =
      let made_dir = capabilities_passed req place _ req.capabilities f g made e in
      let (no_error, same, answer) =
        mkdir_passed req place _ (filer.mkdir place.parent place.name f).0
          (filer.mkdir place.parent place.name f).1 g made made_dir in
      (λ i. (no_error i, same i), sym (ap (λ c. c.volume_id) answer))

  create_passed :
      (b : Bool) (r : Result Created × F) (x : Failure) (f g : F) (made : Created)
      → (if b then (err x, f) else r) ≡ (ok made, g)
      → r ≡ (ok made, g)
  create_passed true r x f g made e = cc
  create_passed false r x f g made e = e

  -- When CreateVolume succeeds with an absolute path, a clean parent directory below the root and a plain name, the
  -- one directory it made is the one that ValidateVolumeCapabilities and DeleteVolume find from the ID
  -- of the volume it returned.
  pub created_volume_found :
      (req : CreateRequest) (f g : F) (made : Created)
      → create_volume filer req f ≡ (ok made, g)
      → IsPlaced (place_of filer req.parameters req.name)
      → (dir : String) × (name : String) × (filer.mkdir dir name f ≡ (none, g))
        × (place_of_id made.volume_id ≡ (dir, name))
  unfolding create_volume
  created_volume_found req f g made e placed =
      let place = place_of filer req.parameters req.name in
      let (dir_made, id) =
        merge_passed req place _ f g made (create_passed (req.name == "") _ _ f g made e) in
      (
        place.parent,
        place.name,
        dir_made,
        ap place_of_id id ∙ place_of-IsFound req.parameters req.name placed,
      )
