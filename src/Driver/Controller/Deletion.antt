-- ===== src/Driver/Controller/Deletion.antt =====
-- DeleteVolume of pkg/driver/controllerserver.go. The filer is a parameter: its state, and what its
-- client answers.
use forks_seaweedfs_csi_driv.Common.{
  ℕ, zero, suc, String, ◌<>◌, Bool, true, false, ◌||◌, not, Option, none, some, List, [], ◌∷◌, ◌==◌,
  if◌then◌else◌,
}
use forks_seaweedfs_csi_driv.Common.Text.{contains, has_prefix}
use forks_seaweedfs_csi_driv.Common.Failure.{
  Failure, Result, ok, err, failure, status_error, invalid_argument,
}
use forks_seaweedfs_csi_driv.Common.Paths.{parent_of, base, join_clean}

-- The filer client of the controller. `entries` lists a page of the children of a directory behind a
-- name, and says of each whether the listing ends with it; `remove` deletes an entry, with errors below
-- it ignored or not; `forget` deletes the persisted parameters of a volume; `not_found` is the text of
-- filer_pb.ErrNotFound, which every error that wraps it contains.
pub record Filer (F : Type 0) : Type 0 where
  pub bucket_dir : F → Result String
  pub entries : F → String → String → Result (List (String × Bool))
  pub remove : Bool → String → String → F → Option Failure × F
  pub forget : String → F → Option Failure × F
  pub not_found : String

-- What listFilerChildrenPage collects.
pub record Page : Type 0 where
  pub names : List String
  pub last : String
  pub saw_last : Bool

unfoldable pub collect : List (String × Bool) → Page
collect [] = record { names = []; last = ""; saw_last = false }
collect ((name, is_last) ∷ more) =
    let rest = collect more in
    record {
      names = if name == "" then rest.names else name ∷ rest.names;
      last = if rest.last == "" then name else rest.last;
      saw_last = is_last || rest.saw_last;
    }

unfoldable pub has_more : Page → Bool
has_more p = elim p.names [ [] ↦ false | name ∷ names ↦ not p.saw_last ]

-- The directory and the name of a volume. A legacy volume ID is a name below /buckets.
unfoldable pub place_of_id : String → String × String
unfolding parent_of base
place_of_id id = if has_prefix id "/" then (parent_of id, base id) else ("/buckets", id)

module _ {F : Type 0} (filer : Filer F) where
  -- isNotFoundError
  unfoldable pub is_not_found : Failure → Bool
  is_not_found e = contains e.text filer.not_found

  -- The answer to a deletion: an error ends the deletions.
  unfoldable pub after_delete :
      String → String → (F → Result (Unit {0}) × F) → Option Failure × F → Result (Unit {0}) × F
  after_delete dir name next (none, g) = next g
  after_delete dir name next (some e, g) =
      (err (failure ("delete child " <> (name <> (" of volume " <> (dir <> (": " <> e.text)))))), g)

  -- The deletions of one page.
  unfoldable pub delete_all : String → List String → F → Result (Unit {0}) × F
  unfolding after_delete
  delete_all dir [] f = (ok tt, f)
  delete_all dir (name ∷ names) f =
      after_delete dir name (delete_all dir names) (filer.remove false dir name f)

  -- What follows the deletions: the next page, unless this one was the last.
  unfoldable pub after_deletes :
      (String → F → Option (Result (Unit {0})) × F)
      → Page
      → Result (Unit {0}) × F
      → Option (Result (Unit {0})) × F
  after_deletes next p (err e, f) = (some (err e), f)
  after_deletes next p (ok u, f) =
      let more = next p.last f in
      if not (has_more p) || p.last == "" then (some (ok tt), f) else more

  unfoldable pub after_page :
      (String → F → Option (Result (Unit {0})) × F)
      → String
      → Result (List (String × Bool))
      → F
      → Option (Result (Unit {0})) × F
  unfolding is_not_found delete_all after_deletes
  after_page next dir (err e) f = (some (if is_not_found e then ok tt else err e), f)
  after_page next dir (ok page) f =
      after_deletes next (collect page) (delete_all dir (collect page).names f)

  -- The loop of emptyBucketChildren; `none` means that the fuel ran out.
  unfoldable pub empty_pages : ℕ → String → String → F → Option (Result (Unit {0})) × F
  unfolding after_page
  empty_pages zero dir after f = (none, f)
  empty_pages (suc fuel) dir after f =
      after_page (empty_pages fuel dir) dir (filer.entries f dir after) f

  -- emptyBucketChildren: nothing is done for a volume that is no bucket.
  unfoldable pub empty_bucket_children : ℕ → String → F → Option (Result (Unit {0})) × F
  unfolding empty_pages
  empty_bucket_children fuel path f = elim (filer.bucket_dir f) [
    | err e ↦ (some (err e), f)
    | ok buckets ↦
        let emptied = empty_pages fuel path "" f in
        if parent_of path == buckets then emptied else (some (ok tt), f)
  ]

  -- The end of DeleteVolume: a failure to delete the persisted parameters is only logged.
  delete_entry : String → String → String → F → Result (Unit {0}) × F
  delete_entry id parent name f =
      let (r, g) = filer.remove true parent name f in
      elim r [
        | none ↦ (ok tt, (filer.forget id g).1)
        | some e ↦ (err (failure ("error deleting volume " <> (id <> (": " <> e.text)))), g)
      ]

  delete_emptied :
      String → String → String → Option (Result (Unit {0})) × F → Option (Result (Unit {0})) × F
  unfolding delete_entry
  delete_emptied id parent name (none, f) = (none, f)
  delete_emptied id parent name (some (err e), f) =
      (some (err (failure ("error emptying volume " <> (id <> (": " <> e.text))))), f)
  delete_emptied id parent name (some (ok u), f) =
      let (r, g) = delete_entry id parent name f in (some r, g)

  -- DeleteVolume, with the answer of ValidateControllerServiceRequest.
  unfoldable pub delete_volume : ℕ → Option Failure → String → F → Option (Result (Unit {0})) × F
  unfolding empty_bucket_children delete_emptied place_of_id
  delete_volume fuel (some e) id f =
      if id == ""
      then (some (err (status_error invalid_argument "Volume ID missing in request")), f)
      else (some (err e), f)
  delete_volume fuel none id f =
      let (parent, name) = place_of_id id in
      let deleted =
        delete_emptied id parent name (empty_bucket_children fuel (join_clean parent name) f) in
      if id == ""
      then (some (err (status_error invalid_argument "Volume ID missing in request")), f)
      else deleted
