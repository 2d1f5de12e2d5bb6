-- ===== src/Driver/Store.antt =====
-- The store of persisted parameters: pkg/driver/vacstore.go. The HTTP client, the tokens of the weed
-- library, and the JSON of a map of texts are parameters.
pub mod Law
mod Trips
pub mod Spec
pub mod Changes
pub mod Refined
mod Tests
use forks_seaweedfs_csi_driv.Common.{
  ℕ, String, ◌<>◌, Bool, true, false, ◌&&◌, ◌||◌, not, Option, none, some, List, [], ◌∷◌, ◌==◌, eqb,
  if◌then◌else◌,
}
use forks_seaweedfs_csi_driv.Common.Text.{bytes}
use forks_seaweedfs_csi_driv.Common.Base64.{encode}
use forks_seaweedfs_csi_driv.Common.Decimal.{ℤ, pos, format_nat}
use forks_seaweedfs_csi_driv.Common.Dict.{Dict}
use forks_seaweedfs_csi_driv.Common.Failure.{Failure, Result, ok, err, failure}

abbrev pub vac_root_dir : String
vac_root_dir = "/.csi/vac"

-- vacPath
unfoldable pub vac_path : String → String
vac_path id = vac_root_dir <> ("/" <> encode (bytes id))

pub data Method : Type 0 where
  get put delete : Method

-- A request to `<scheme>://<address><path>`. The authorization is empty if there is no token.
pub record Request (Body : Type 0) : Type 0 where
  pub method : Method
  pub scheme : String
  pub address : String
  pub path : String
  pub body : Option Body
  pub authorization : String

-- An error of the transport, or a status with a body.
pub data Answer (Body : Type 0) : Type 0 where
  failed : Failure → Answer Body
  answered : ℕ → Body → Answer Body

-- `World` is the state of the filers. `new_request` is the error of http.NewRequestWithContext.
pub record Net : Type 1 where
  pub World : Type 0
  pub Body : Type 0
  pub is_empty : Body → Bool
  pub marshal : Dict String → Body
  pub unmarshal : Body → Result (Dict String)
  pub new_request : String → Option Failure
  pub http_address : String → String
  pub token : String → ℤ → String
  pub bearer_prefix : String
  pub serve : World → Request Body → Answer Body × World

-- filerVacStore, without its client
pub record Filers : Type 0 where
  pub filers : List String
  pub scheme : String
  pub signing_key : String
  pub expires_after_sec : ℤ
  pub read_signing_key : String
  pub read_expires_after_sec : ℤ

-- The settings that newFilerVacStore and vacStoreTLSConfig read.
pub record Config : Type 0 where
  pub use_tls : Bool
  pub vac_ca : String
  pub grpc_ca : String
  pub signing_key : String
  pub expires_after_seconds : ℤ
  pub read_signing_key : String
  pub read_expires_after_seconds : ℤ

-- No TLS, TLS with the system's certificates, or with those of a file.
pub data Tls : Type 0 where
  plain system_roots : Tls
  roots_of : String → Tls

-- A certificate file: the error of reading it, or whether it has certificates.
abbrev pub Certificates : Type 0
Certificates = String → Result Bool

with_roots : String → Result Bool → Result Tls
with_roots file (err e) =
    err (failure ("could not read VAC store CA " <> (file <> (": " <> e.text))))
with_roots file (ok false) = err (failure ("could not parse VAC store CA " <> file))
with_roots file (ok true) = ok (roots_of file)

-- vacStoreTLSConfig
unfoldable pub vac_store_tls_config : Certificates → Config → Result Tls
unfolding with_roots
vac_store_tls_config read v =
    let file = if v.vac_ca == "" then v.grpc_ca else v.vac_ca in
    if not v.use_tls
    then ok plain
    else if file == ""
    then ok system_roots
    else with_roots file (read file)

is_zero : ℤ → Bool
is_zero (pos n) = eqb n 0
is_zero _ = false

scheme_of : Tls → String
scheme_of plain = "http"
scheme_of _ = "https"

filers_with : List String → Config → Result Tls → Result Filers
unfolding is_zero scheme_of
filers_with filers v (err e) = err e
filers_with filers v (ok tls) = ok (record {
  filers = filers;
  scheme = scheme_of tls;
  signing_key = v.signing_key;
  expires_after_sec = if is_zero v.expires_after_seconds then pos 10 else v.expires_after_seconds;
  read_signing_key = v.read_signing_key;
  read_expires_after_sec =
      if is_zero v.read_expires_after_seconds then pos 60 else v.read_expires_after_seconds;
})

-- newFilerVacStore
unfoldable pub new_filer_vac_store : Certificates → List String → Config → Result Filers
unfolding filers_with vac_store_tls_config
new_filer_vac_store read filers v = filers_with filers v (vac_store_tls_config read v)

is_write : Method → Bool
is_write get = false
is_write _ = true

unfoldable pub is_ok_code : ℕ → List ℕ → Bool
is_ok_code code [] = false
is_ok_code code (c ∷ codes) = eqb code c || is_ok_code code codes

module _ (n : Net) (s : Filers) where
  open n use {
    World, Body, is_empty, marshal, unmarshal, new_request, http_address, token, bearer_prefix,
    serve,
  }

  authorization_of : Method → String
  unfolding is_write
  authorization_of method =
      let made =
        if is_write method
        then token s.signing_key s.expires_after_sec
        else token s.read_signing_key s.read_expires_after_sec in
      if made == "" then "" else bearer_prefix <> made

  unfoldable pub request_to : Method → String → Option Body → String → Request Body
  unfolding authorization_of
  request_to method id body filer = record {
    method = method;
    scheme = s.scheme;
    address = http_address filer;
    path = vac_path id;
    body = body;
    authorization = authorization_of method;
  }

  unfoldable pub url : String → String → String
  url id filer = s.scheme <> ("://" <> (http_address filer <> vac_path id))

  unfoldable pub or_no_filer : Option Failure → Failure
  or_no_filer none = failure "no filer configured"
  or_no_filer (some e) = e

  unfoldable pub accepted : String → List ℕ → ℕ → Body → Result Body
  unfolding is_ok_code
  accepted filer codes code body =
      if is_ok_code code codes
      then ok body
      else err (failure ("filer " <> (filer <> (": unexpected status " <> format_nat code))))

  -- One filer: `rest` goes on with the next ones, with the error of this one.
  unfoldable pub on_answer :
      String
      → List ℕ
      → (Option Failure → World → Result Body × World)
      → Answer Body × World
      → Result Body × World
  unfolding accepted
  on_answer filer codes rest (failed e, w) =
      rest (some (failure ("filer " <> (filer <> (": " <> e.text))))) w
  on_answer filer codes rest (answered code body, w) = (accepted filer codes code body, w)

  unfoldable pub on_request :
      Option Failure → (World → Result Body × World) → World → Result Body × World
  on_request (some e) next w = (err e, w)
  on_request none next w = next w

  unfoldable pub try_filers :
      Method
      → String
      → Option Body
      → List ℕ
      → List String
      → Option Failure
      → World
      → Result Body × World
  unfolding on_answer on_request request_to url or_no_filer
  try_filers method id body codes [] last w = (err (or_no_filer last), w)
  try_filers method id body codes (filer ∷ filers) last w =
      on_request (new_request (url id filer))
        (λ w'.
          on_answer filer codes (try_filers method id body codes filers)
            (serve w' (request_to method id body filer)))
        w

  -- roundTrip
  unfoldable pub round_trip : Method → String → Option Body → List ℕ → World → Result Body × World
  unfolding try_filers
  round_trip method id body codes w = try_filers method id body codes s.filers none w

  unfoldable pub parsed : String → Result (Dict String) → Result (Option (Dict String))
  parsed id (ok params) = ok (some params)
  parsed id (err e) =
      err (failure ("corrupt persisted parameters for " <> (id <> (": " <> e.text))))

  unfoldable pub unmarshalled : String → Result Body → Result (Option (Dict String))
  unfolding parsed
  unmarshalled id (err e) = err e
  unmarshalled id (ok body) = if is_empty body then ok none else parsed id (unmarshal body)

  unfoldable pub read_from : List String → String → World → Result (Option (Dict String)) × World
  unfolding round_trip unmarshalled
  read_from [] id w = (ok none, w)
  read_from (f ∷ fs) id w =
      let (got, after) = round_trip get id none (200 ∷ 404 ∷ []) w in (unmarshalled id got, after)

  -- The Read method; no parameters for a volume that has no entry.
  unfoldable pub read_entry : String → World → Result (Option (Dict String)) × World
  unfolding read_from
  read_entry id w = read_from s.filers id w

  unfoldable pub done_of : Result Body → Result (Unit {0})
  done_of (ok body) = ok tt
  done_of (err e) = err e

  -- The Write method
  unfoldable pub write_entry : String → Dict String → World → Result (Unit {0}) × World
  unfolding round_trip done_of
  write_entry id [] w = (ok tt, w)
  write_entry id (p ∷ params) w =
      let (got, after) = round_trip put id (some (marshal (p ∷ params))) (200 ∷ 201 ∷ []) w in
      (done_of got, after)

  -- The Delete method
  unfoldable pub delete_entry_at : String → World → Result (Unit {0}) × World
  unfolding round_trip done_of
  delete_entry_at id w =
      let (got, after) = round_trip delete id none (200 ∷ 404 ∷ 204 ∷ []) w in (done_of got, after)
