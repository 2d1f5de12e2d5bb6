-- ===== src/Driver/Store/Trips.antt =====
-- The loop over the filers: roundTrip of pkg/driver/vacstore.go.
use forks_seaweedfs_csi_driv.Common.{
  ℕ, String, ◌≡◌, refl, true, Option, none, some, inl, inr, List, [], ◌∷◌, Bool-cases,
}
use forks_seaweedfs_csi_driv.Common.Failure.{Failure, Result, ok, err}
use forks_seaweedfs_csi_driv.Driver.Store.{
  Method, Answer, failed, answered, Net, Filers, is_ok_code, request_to, url, accepted, on_answer,
  on_request, try_filers,
}

module _ (n : Net) (s : Filers) where
  open n use {World, Body, serve}

  -- How one filer's answer, and the whole round trip, may end.
  module _ (Same : World → Type 0) (Good : Body → World → Type 0) where
    abbrev pub Ends : Result Body × World → Type 0
    Ends (ok body, w) = Good body w
    Ends (err e, w) = Same w

    abbrev pub Answers : List ℕ → Answer Body → World → Type 0
    Answers codes (failed e) w = Same w
    Answers codes (answered code body) w = Same w × (is_ok_code code codes ≡ true → Good body w)

    pub answers_by :
        (codes : List ℕ) (a : Answer Body) (w : World)
        → Same w
        → ((code : ℕ) (body : Body)
            → a ≡ answered code body
            → is_ok_code code codes ≡ true
            → Good body w)
        → Answers codes a w
    answers_by codes (failed e) w h k = h
    answers_by codes (answered code body) w h k = (h, k code body refl)

    answer-Ends :
        (filer : String) (codes : List ℕ) (rest : Option Failure → World → Result Body × World)
        (a : Answer Body) (w : World)
        → Answers codes a w
        → ((last : Option Failure) (w : World) → Same w → Ends (rest last w))
        → Ends (on_answer n s filer codes rest (a, w))
    unfolding on_answer accepted
    answer-Ends filer codes rest (failed e) w h k = k _ w h
    answer-Ends filer codes rest (answered code body) w (same, good) k =
        elim (Bool-cases (is_ok_code code codes)) [
          | inl fits ↦ rw fits (good fits)
          | inr wrong ↦ rw wrong same
        ]

    request-Ends :
        (o : Option Failure) (next : World → Result Body × World) (w : World)
        → Same w
        → Ends (next w)
        → Ends (on_request n s o next w)
    unfolding on_request
    request-Ends none next w h k = k
    request-Ends (some e) next w h k = h

    pub try_filers-Ends :
        (method : Method) (id : String) (body : Option Body) (codes : List ℕ)
        → ((filer : String) (w : World)
            → Same w
            → Answers codes
                (serve w (request_to n s method id body filer)).0
                (serve w (request_to n s method id body filer)).1)
        → (filers : List String) (last : Option Failure) (w : World) → Same w
        → Ends (try_filers n s method id body codes filers last w)
    unfolding try_filers
    try_filers-Ends method id body codes step [] last w h = h
    try_filers-Ends method id body codes step (filer ∷ filers) last w h =
        request-Ends (n.new_request (url n s id filer)) _ w h (
          answer-Ends filer codes _ (serve w (request_to n s method id body filer)).0
            (serve w (request_to n s method id body filer)).1 (step filer w h)
            (try_filers-Ends method id body codes step filers))
