-- ===== src/Driver/Store/Tests.antt =====
-- One store behind two filers.
use forks_seaweedfs_csi_driv.Common.{
  String, ◌≡◌, ◌≢◌, refl, Bool, true, false, Option, none, some, inl, [], ◌∷◌, ◌==◌, eq_iff,
  eq_refl, if◌then◌else◌, arith,
}
use forks_seaweedfs_csi_driv.Common.Chars.{char_of}
use forks_seaweedfs_csi_driv.Common.Base64.{encode}
use forks_seaweedfs_csi_driv.Common.Decimal.{pos}
use forks_seaweedfs_csi_driv.Common.Dict.{Dict}
use forks_seaweedfs_csi_driv.Common.Failure.{Result, ok, err, failure}
use forks_seaweedfs_csi_driv.Driver.Store.{
  Method, get, put, delete, Answer, failed, answered, Net, Filers, vac_path,
}
use forks_seaweedfs_csi_driv.Driver.Store.Law.{Lawful}
use forks_seaweedfs_csi_driv.Driver.Store.Spec.{Abstract, write_op, specified, put_at}
use forks_seaweedfs_csi_driv.Driver.Store.Changes.{performed, Refines}
use forks_seaweedfs_csi_driv.Driver.Store.Refined.{performed-Refines}

path_of : vac_path "/buckets/a" ≡ "/.csi/vac/L2J1Y2tldHMvYQ"
unfolding vac_path encode char_of
path_of = refl

-- No body, or a map.
abbrev Body : Type 0
Body = Option (Dict String)

abbrev World : Type 0
World = String → Option Body

abbrev put_path : String → Option Body → World → World
put_path path value w other = if path == other then value else w other

found : Option Body → Answer Body
found none = answered 404 none
found (some b) = answered 200 b

served : Method → String → Option Body → World → Answer Body × World
served get path body w = (found (w path), w)
served put path none w = (failed (failure "no body"), w)
served put path (some b) w = (answered 201 none, put_path path (some b) w)
served delete path body w = (answered 204 none, put_path path none w)

abbrev no_map : Body → Bool
no_map none = true
no_map (some m) = false

abbrev map_of : Body → Result (Dict String)
map_of none = err (failure "unexpected end of JSON input")
map_of (some m) = ok m

abbrev net : Net
net = record {
  World = World;
  Body = Body;
  is_empty = no_map;
  marshal = some;
  unmarshal = map_of;
  new_request = λ url. none;
  http_address = λ filer. filer;
  token = λ key seconds. key;
  bearer_prefix = "BEARER ";
  serve = λ w r. served r.method r.path r.body w;
}

put_path_self :
    (path : String) (value : Option Body) (w : World) → put_path path value w path ≡ value
put_path_self path value w = rw (eq_refl path)

served-elsewhere :
    (m : Method) (path : String) (body : Option Body) (w : World) (other : String)
    → path ≢ other
    → (served m path body w).1 other ≡ w other
unfolding served
served-elsewhere get path body w other ne = refl
served-elsewhere put path none w other ne = refl
served-elsewhere put path (some b) w other ne = ground (arith, eq_iff path other)
served-elsewhere delete path body w other ne = ground (arith, eq_iff path other)

found-inv : (o : Option Body) (body : Body) → found o ≡ answered 200 body → o ≡ some body
unfolding found
found-inv none body e = ground arith
found-inv (some b) body e = ground arith

lost-inv :
    (o : Option Body) (body : Body)
    → found o ≡ answered 404 body
    → (o ≡ none) × (no_map body ≡ true)
unfolding found
lost-inv none none e = (refl, refl)
lost-inv none (some b) e = ground arith
lost-inv (some c) body e = ground arith

module _ (path : String) (w : World) where
  kept_by_get : (m : Method) (body : Option Body) → m ≡ get → (served m path body w).1 path ≡ w path
  unfolding served
  kept_by_get get body e = refl
  kept_by_get put body e = cc
  kept_by_get delete body e = cc

  found_by_get :
      (m : Method) (sent : Option Body) (body : Body)
      → m ≡ get
      → (served m path sent w).0 ≡ answered 200 body
      → w path ≡ some body
  unfolding served
  found_by_get get sent body e h = found-inv (w path) body h
  found_by_get put sent body e h = cc
  found_by_get delete sent body e h = cc

  lost_by_get :
      (m : Method) (sent : Option Body) (body : Body)
      → m ≡ get
      → (served m path sent w).0 ≡ answered 404 body
      → (w path ≡ none) × (no_map body ≡ true)
  unfolding served
  lost_by_get get sent body e h = lost-inv (w path) body h
  lost_by_get put sent body e h = cc
  lost_by_get delete sent body e h = cc

  kept_by_put :
      (m : Method) (sent : Option Body) (b : Body)
      → m ≡ put
      → sent ≡ some b
      → (served m path sent w).1 path ≡ some b
  unfolding served
  kept_by_put get sent b e h = cc
  kept_by_put put none b e h = cc
  kept_by_put put (some c) b e h = rw (eq_refl path) h
  kept_by_put delete sent b e h = cc

  gone_by_delete :
      (m : Method) (sent : Option Body) → m ≡ delete → (served m path sent w).1 path ≡ none
  unfolding served
  gone_by_delete get sent e = cc
  gone_by_delete put sent e = cc
  gone_by_delete delete sent e = rw (eq_refl path)

net-Lawful : Lawful net
net-Lawful = record {
  stored = λ w path. w path;
  elsewhere = λ w r path ne. served-elsewhere r.method r.path r.body w path ne;
  get_keeps = λ w r e. kept_by_get r.path w r.method r.body e;
  got = λ w r body e h. found_by_get r.path w r.method r.body body e h;
  missing = λ w r body e h. lost_by_get r.path w r.method r.body body e h;
  put_some = λ w r b e h. inl (kept_by_put r.path w r.method r.body b e h);
  put_done = λ w r b body code e h a c. kept_by_put r.path w r.method r.body b e h;
  delete_some = λ w r e. inl (gone_by_delete r.path w r.method r.body e);
  delete_done = λ w r body code e a c. gone_by_delete r.path w r.method r.body e;
  unmarshal-marshal = λ params. refl;
  marshal_full = λ params. refl;
}

abbrev two_filers : Filers
two_filers = record {
  filers = "filer-0" ∷ "filer-1" ∷ [];
  scheme = "https";
  signing_key = "k";
  expires_after_sec = pos 10;
  read_signing_key = "";
  read_expires_after_sec = pos 60;
}

abbrev nothing : Abstract
nothing id = none

performed-Refines_example :
    Refines net two_filers net-Lawful
      (none, put_at "/buckets/a" (some (("dlm", "true") ∷ [])) nothing)
      nothing
      (performed net two_filers (write_op "/buckets/a" (("dlm", "true") ∷ [])) (λ path. none))
unfolding specified net-Lawful
performed-Refines_example =
    performed-Refines net two_filers net-Lawful (write_op "/buckets/a" (("dlm", "true") ∷ []))
      nothing (λ path. none) (λ e. cc) (omega arith) (λ id a. refl)
