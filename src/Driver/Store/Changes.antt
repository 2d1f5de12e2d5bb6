-- ===== src/Driver/Store/Changes.antt =====
-- What one request may change in the filers, and what the store of pkg/driver/vacstore.go stands for.
use mathlib.Core.Option.{map as map_option}
use forks_seaweedfs_csi_driv.Common.{
  ℕ, String, ◌≡◌, ◌≢◌, refl, sym, ap, ◌∙◌, true, Option, none, some, ◌⊎◌, inl, inr, List, [], ◌∷◌,
  ◌==◌, eq_iff, eqb, Bool-cases, arith,
}
use forks_seaweedfs_csi_driv.Common.Base64.{IsAscii}
use forks_seaweedfs_csi_driv.Common.Dict.{Dict}
use forks_seaweedfs_csi_driv.Common.Failure.{Result, ok, err}
use forks_seaweedfs_csi_driv.Driver.Store.{
  Method, get, Request, answered, Net, Filers, vac_path, is_ok_code, request_to, read_entry,
  write_entry, delete_entry_at,
}
use forks_seaweedfs_csi_driv.Driver.Store.Law.{Lawful}
use forks_seaweedfs_csi_driv.Driver.Store.Trips.{Answers, answers_by}
use forks_seaweedfs_csi_driv.Driver.Store.Spec.{
  Abstract, Op, read_op, write_op, delete_op, answer_none,
}

module _ (n : Net) (s : Filers) where
  open n use {World, Body, serve, marshal}

  unfoldable pub performed : Op → World → Result (Option (Dict String)) × World
  performed (read_op id) w = read_entry n s id w
  performed (write_op id params) w =
      let (got, after) = write_entry n s id params w in (answer_none got, after)
  performed (delete_op id) w =
      let (got, after) = delete_entry_at n s id w in (answer_none got, after)

  module _ (law : Lawful n) where
    open law use {stored}

    -- The filers hold the parameters of every volume of the map, and none of any other.
    abbrev pub Represents : World → Abstract → Type 0
    Represents w m = (id : String) → IsAscii id → stored w (vac_path id) ≡ map_option marshal (m id)

    -- On success, the map's answer and the map's state; on an error, the operation was carried out or
    -- it was not.
    abbrev pub Refines :
        Option (Dict String) × Abstract → Abstract → Result (Option (Dict String)) × World → Type 0
    Refines (answer, m') m (ok got, w) = (got ≡ answer) × Represents w m'
    Refines (answer, m') m (err e, w) = Represents w m ⊎ Represents w m'

    -- Nothing has changed.
    abbrev pub Same : World → World → Type 0
    Same w w' = (path : String) → stored w' path ≡ stored w path

    abbrev pub Got : World → String → Body → World → Type 0
    Got w path body w' =
        Same w w'
        × ((stored w path ≡ some body) ⊎ ((stored w path ≡ none) × (n.is_empty body ≡ true)))

    keeps_all : (w : World) (r : Request Body) → r.method ≡ get → Same w (serve w r).1
    keeps_all w r e path = elim (Bool-cases (r.path == path)) [
      | inl here ↦ rw (sym ((eq_iff r.path path).0 here)) (law.get_keeps w r e)
      | inr other ↦ law.elsewhere w r path (λ p. cc ((eq_iff r.path path).1 p))
    ]

    got_by_code :
        (w : World) (r : Request Body) (code : ℕ) (body : Body)
        → r.method ≡ get
        → (serve w r).0 ≡ answered code body
        → is_ok_code code (200 ∷ 404 ∷ []) ≡ true
        → (stored w r.path ≡ some body) ⊎ ((stored w r.path ≡ none) × (n.is_empty body ≡ true))
    unfolding is_ok_code
    got_by_code w r code body m e h = elim (Bool-cases (eqb code 200)) [
      | inl found ↦ inl (law.got w r body m (e ∙ ap (λ c. answered c body) (ground arith)))
      | inr other ↦ inr (law.missing w r body m (e ∙ ap (λ c. answered c body) (ground arith)))
    ]

    pub get_answers :
        (before : World) (id filer : String) (w : World)
        → Same before w
        → Answers n s
            (Same before)
            (Got before (vac_path id))
            (200 ∷ 404 ∷ [])
            (serve w (request_to n s get id none filer)).0
            (serve w (request_to n s get id none filer)).1
    unfolding request_to
    get_answers before id filer w h =
        let r = request_to n s get id none filer in
        let after : Same before (serve w r).1 = (λ path. keeps_all w r refl path ∙ h path) in
        answers_by n s (Same before) (Got before (vac_path id)) (200 ∷ 404 ∷ []) (serve w r).0
          (serve w r).1 after
          (λ code body e accepted. (after, here (got_by_code w r code body refl e accepted)))
      where
        here :
            {body : Body}
            → (stored w (vac_path id) ≡ some body)
              ⊎ ((stored w (vac_path id) ≡ none) × (n.is_empty body ≡ true))
            → (stored before (vac_path id) ≡ some body)
              ⊎ ((stored before (vac_path id) ≡ none) × (n.is_empty body ≡ true))
        here (inl e) = inl (sym (h (vac_path id)) ∙ e)
        here (inr (e, empty)) = inr (sym (h (vac_path id)) ∙ e, empty)

    -- What a request to write may do: the other paths stay, and this one holds `target` or what it held.
    abbrev pub Tried : Option Body → World → String → World → Type 0
    Tried target w path w' =
        ((other : String) → path ≢ other → stored w' other ≡ stored w other)
        × ((stored w' path ≡ target) ⊎ (stored w' path ≡ stored w path))

    abbrev pub Written : Option Body → World → String → Body → World → Type 0
    Written target w path body w' =
        ((other : String) → path ≢ other → stored w' other ≡ stored w other)
        × (stored w' path ≡ target)

    again-Tried :
        (target : Option Body) (before : World) (r : Request Body) (w : World)
        → Tried target before r.path w
        → (stored (serve w r).1 r.path ≡ target) ⊎ (stored (serve w r).1 r.path ≡ stored w r.path)
        → Tried target before r.path (serve w r).1
    again-Tried target before r w (others, inl e) (inl new) =
        (λ other ne. law.elsewhere w r other ne ∙ others other ne, inl new)
    again-Tried target before r w (others, inl e) (inr old) =
        (λ other ne. law.elsewhere w r other ne ∙ others other ne, inl (old ∙ e))
    again-Tried target before r w (others, inr e) (inl new) =
        (λ other ne. law.elsewhere w r other ne ∙ others other ne, inl new)
    again-Tried target before r w (others, inr e) (inr old) =
        (λ other ne. law.elsewhere w r other ne ∙ others other ne, inr (old ∙ e))

    pub write_answers :
        (method : Method) (target body : Option Body) (codes : List ℕ) (before : World)
        (id filer : String) (w : World)
        → ((w : World)
            → (stored (serve w (request_to n s method id body filer)).1 (vac_path id) ≡ target)
              ⊎ (stored (serve w (request_to n s method id body filer)).1 (vac_path id)
                  ≡ stored w (vac_path id)))
        → ((w : World) (code : ℕ) (got : Body)
            → (serve w (request_to n s method id body filer)).0 ≡ answered code got
            → is_ok_code code codes ≡ true
            → stored (serve w (request_to n s method id body filer)).1 (vac_path id) ≡ target)
        → Tried target before (vac_path id) w
        → Answers n s
            (Tried target before (vac_path id))
            (Written target before (vac_path id))
            codes
            (serve w (request_to n s method id body filer)).0
            (serve w (request_to n s method id body filer)).1
    unfolding request_to vac_path
    write_answers method target body codes before id filer w some_ done_ h =
        let r = request_to n s method id body filer in
        let after : Tried target before (vac_path id) (serve w r).1 =
          again-Tried target before r w h (some_ w) in
        answers_by n s (Tried target before (vac_path id)) (Written target before (vac_path id))
          codes (serve w r).0 (serve w r).1 after
          (λ code got e accepted. (after.0, done_ w code got e accepted))
