-- ===== src/Driver/Store/Law.antt =====
-- What the store of pkg/driver/vacstore.go relies on: the paths of its entries, and the filers.
use text.Mathlib.TextLemmas.{append_cancel_left}
use forks_seaweedfs_csi_driv.Common.{
  ℕ, String, ◌≡◌, ◌≢◌, true, false, Option, none, some, ◌⊎◌, [], ◌∷◌,
}
use forks_seaweedfs_csi_driv.Common.Base64.{IsAscii, encode-bytes-injective}
use forks_seaweedfs_csi_driv.Common.Dict.{Dict}
use forks_seaweedfs_csi_driv.Common.Failure.{ok}
use forks_seaweedfs_csi_driv.Driver.Store.{
  get, put, delete, Request, answered, Net, vac_root_dir, vac_path, is_ok_code,
}

-- Distinct volume IDs never share a path.
pub vac_path-injective : (a b : String) → IsAscii a → IsAscii b → vac_path a ≡ vac_path b → a ≡ b
unfolding vac_path
vac_path-injective a b ha hb e =
    encode-bytes-injective a b ha hb
      (append_cancel_left "/" _ _ (append_cancel_left vac_root_dir _ _ e))

-- What the filers do, as their HTTP API is documented: they share one store, in which a path holds a
-- body or nothing.
pub record Lawful (n : Net) : Type 0 where
  pub stored : n.World → String → Option n.Body
  -- A request leaves the other paths alone, and one to read leaves all alone.
  pub elsewhere :
      (w : n.World) (r : Request n.Body) (path : String)
      → r.path ≢ path
      → stored (n.serve w r).1 path ≡ stored w path
  pub get_keeps :
      (w : n.World) (r : Request n.Body)
      → r.method ≡ get
      → stored (n.serve w r).1 r.path ≡ stored w r.path
  -- 200 comes with what is stored, and 404 with nothing.
  pub got :
      (w : n.World) (r : Request n.Body) (body : n.Body)
      → r.method ≡ get
      → (n.serve w r).0 ≡ answered 200 body
      → stored w r.path ≡ some body
  pub missing :
      (w : n.World) (r : Request n.Body) (body : n.Body)
      → r.method ≡ get
      → (n.serve w r).0 ≡ answered 404 body
      → (stored w r.path ≡ none) × (n.is_empty body ≡ true)
  -- A request to write is carried out or not; 200 and 201 say that it was.
  pub put_some :
      (w : n.World) (r : Request n.Body) (b : n.Body)
      → r.method ≡ put
      → r.body ≡ some b
      → (stored (n.serve w r).1 r.path ≡ some b) ⊎ (stored (n.serve w r).1 r.path ≡ stored w r.path)
  pub put_done :
      (w : n.World) (r : Request n.Body) (b body : n.Body) (code : ℕ)
      → r.method ≡ put
      → r.body ≡ some b
      → (n.serve w r).0 ≡ answered code body
      → is_ok_code code (200 ∷ 201 ∷ []) ≡ true
      → stored (n.serve w r).1 r.path ≡ some b
  pub delete_some :
      (w : n.World) (r : Request n.Body)
      → r.method ≡ delete
      → (stored (n.serve w r).1 r.path ≡ none) ⊎ (stored (n.serve w r).1 r.path ≡ stored w r.path)
  pub delete_done :
      (w : n.World) (r : Request n.Body) (body : n.Body) (code : ℕ)
      → r.method ≡ delete
      → (n.serve w r).0 ≡ answered code body
      → is_ok_code code (200 ∷ 404 ∷ 204 ∷ []) ≡ true
      → stored (n.serve w r).1 r.path ≡ none
  -- The JSON of a map reads back as the map, and is not empty.
  pub unmarshal-marshal : (params : Dict String) → n.unmarshal (n.marshal params) ≡ ok params
  pub marshal_full : (params : Dict String) → n.is_empty (n.marshal params) ≡ false
