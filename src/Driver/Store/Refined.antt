-- ===== src/Driver/Store/Refined.antt =====
-- The store of pkg/driver/vacstore.go is a map of volume IDs to parameters.
use mathlib.Core.Option.{map as map_option}
use forks_seaweedfs_csi_driv.Common.{
  String, ◌≡◌, ◌≢◌, refl, sym, ◌∙◌, Option, none, some, inl, inr, List, [], ◌∷◌, ◌==◌, eq_iff,
  Bool-cases, arith,
}
use forks_seaweedfs_csi_driv.Common.Base64.{IsAscii}
use forks_seaweedfs_csi_driv.Common.Dict.{Dict}
use forks_seaweedfs_csi_driv.Common.Failure.{Result, ok, err}
use forks_seaweedfs_csi_driv.Driver.Store.{
  get, put, delete, Net, Filers, vac_path, request_to, round_trip, parsed, unmarshalled, read_from,
  read_entry, done_of, write_entry, delete_entry_at,
}
use forks_seaweedfs_csi_driv.Driver.Store.Law.{Lawful, vac_path-injective}
use forks_seaweedfs_csi_driv.Driver.Store.Trips.{Ends, try_filers-Ends}
use forks_seaweedfs_csi_driv.Driver.Store.Spec.{
  Abstract, put_at, Op, read_op, write_op, delete_op, id_of, specified, answer_none,
}
use forks_seaweedfs_csi_driv.Driver.Store.Changes
use forks_seaweedfs_csi_driv.Driver.Store.Changes.{
  performed, Represents, Refines, get_answers, write_answers,
}

module _ (n : Net) (s : Filers) (law : Lawful n) where
  open n use {World, Body, serve, marshal}
  open law use {stored}

  abbrev Same : World → World → Type 0
  Same = Changes.Same n s law

  abbrev Got : World → String → Body → World → Type 0
  Got = Changes.Got n s law

  abbrev Tried : Option Body → World → String → World → Type 0
  Tried = Changes.Tried n s law

  abbrev Written : Option Body → World → String → Body → World → Type 0
  Written = Changes.Written n s law

  -- What is read, against the map.
  module _ (m : Abstract) (id : String) (ascii : IsAscii id) (w : World)
      (rep : Represents n s law w m) where
    kept-Represents : (w' : World) → Same w w' → Represents n s law w' m
    kept-Represents w' h other a = h (vac_path other) ∙ rep other a

    stored_entry :
        (o : Option (Dict String)) (body : Body)
        → map_option marshal o ≡ some body
        → unmarshalled n s id (ok body) ≡ ok o
    unfolding unmarshalled parsed
    stored_entry none body e = cc
    stored_entry (some params) body e =
        let same : marshal params ≡ body = ground arith in
        rw (sym same, law.marshal_full params, law.unmarshal-marshal params)

    no_entry : (o : Option (Dict String)) → map_option marshal o ≡ none → o ≡ none
    no_entry none e = refl
    no_entry (some p) e = cc

    read-Ends :
        (r : Result Body) (w' : World)
        → Ends n s (Same w) (Got w (vac_path id)) (r, w')
        → Refines n s law (m id, m) m (unmarshalled n s id r, w')
    read-Ends (err e) w' h = unfold unmarshalled in inl (kept-Represents w' h)
    read-Ends (ok body) w' (same, inl e) =
        rw (stored_entry (m id) body (sym (rep id ascii) ∙ e)) (refl, kept-Represents w' same)
    read-Ends (ok body) w' (same, inr (e, empty)) =
        unfold unmarshalled in
        rw empty (sym (no_entry (m id) (sym (rep id ascii) ∙ e)), kept-Represents w' same)

    read_from-Refines :
        (filers : List String)
        → filers ≢ []
        → Refines n s law (m id, m) m (read_from n s filers id w)
    unfolding read_from round_trip
    read_from-Refines [] ne = absurd (ne refl)
    read_from-Refines (f ∷ fs) ne =
        read-Ends (round_trip n s get id none (200 ∷ 404 ∷ []) w).0
          (round_trip n s get id none (200 ∷ 404 ∷ []) w).1
          (try_filers-Ends n s (Same w) (Got w (vac_path id)) get id none (200 ∷ 404 ∷ [])
            (get_answers n s law w id) s.filers none w (λ path. refl))

    -- What is written, against the map.
    written-Represents :
        (value : Option (Dict String)) (w' : World)
        → ((other : String) → vac_path id ≢ other → stored w' other ≡ stored w other)
        → stored w' (vac_path id) ≡ map_option marshal value
        → Represents n s law w' (put_at id value m)
    written-Represents value w' others here other a = elim (Bool-cases (id == other)) [
      | inl same ↦ rw same (rw (sym ((eq_iff id other).0 same)) here)
      | inr different ↦ rw different (
          others (vac_path other)
            (λ e. cc ((eq_iff id other).1 (vac_path-injective id other ascii a e)))
          ∙ rep other a)
    ]

    not_written :
        (w' : World)
        → ((other : String) → vac_path id ≢ other → stored w' other ≡ stored w other)
        → stored w' (vac_path id) ≡ stored w (vac_path id)
        → Represents n s law w' m
    not_written w' others here other a = elim (Bool-cases (id == other)) [
      | inl same ↦ rw (sym ((eq_iff id other).0 same)) (here ∙ rep id ascii)
      | inr different ↦
          others (vac_path other)
            (λ e. cc ((eq_iff id other).1 (vac_path-injective id other ascii a e)))
          ∙ rep other a
    ]

    write-Ends :
        (value : Option (Dict String)) (r : Result Body) (w' : World)
        → Ends n s
            (Tried (map_option marshal value) w (vac_path id))
            (Written (map_option marshal value) w (vac_path id))
            (r, w')
        → Refines n s law (none, put_at id value m) m (answer_none (done_of n s r), w')
    unfolding done_of
    write-Ends value (ok body) w' (others, here) = (refl, written-Represents value w' others here)
    write-Ends value (err e) w' (others, inl here) = inr (written-Represents value w' others here)
    write-Ends value (err e) w' (others, inr here) = inl (not_written w' others here)

    write-Refines :
        (params : Dict String)
        → Refines n s law
            (specified (write_op id params) m)
            m
            (performed n s (write_op id params) w)
    unfolding specified performed write_entry round_trip request_to
    write-Refines [] = (refl, rep)
    write-Refines (p ∷ params) =
        let target = some (marshal (p ∷ params)) in
        write-Ends (some (p ∷ params)) _ _ (
          try_filers-Ends n s (Tried target w (vac_path id)) (Written target w (vac_path id)) put id
            target (200 ∷ 201 ∷ [])
            (λ filer v.
              write_answers n s law put target target (200 ∷ 201 ∷ []) w id filer v
                (λ u.
                  law.put_some u (request_to n s put id target filer) (marshal (p ∷ params)) refl
                    refl)
                (λ u code got e a.
                  law.put_done u (request_to n s put id target filer) (marshal (p ∷ params)) got
                    code refl refl e a))
            s.filers none w (λ other ne. refl, inr refl))

    delete-Refines : Refines n s law (specified (delete_op id) m) m (performed n s (delete_op id) w)
    unfolding specified performed delete_entry_at round_trip request_to
    delete-Refines = write-Ends none _ _ (
        try_filers-Ends n s (Tried none w (vac_path id)) (Written none w (vac_path id)) delete id
          none (200 ∷ 404 ∷ 204 ∷ [])
          (λ filer v.
            write_answers n s law delete none none (200 ∷ 404 ∷ 204 ∷ []) w id filer v
              (λ u. law.delete_some u (request_to n s delete id none filer) refl)
              (λ u code got e a.
                law.delete_done u (request_to n s delete id none filer) got code refl e a))
          s.filers none w (λ other ne. refl, inr refl))

  -- Refinement: with at least one filer, and filers that behave as documented, Read, Write and Delete
  -- of an ASCII volume ID act on the filers as on a map of IDs to parameters. On success the answer and
  -- the map afterwards are the specified ones; on an error the map is the one before or the one after.
  pub performed-Refines :
      (op : Op) (m : Abstract) (w : World)
      → s.filers ≢ []
      → IsAscii (id_of op)
      → Represents n s law w m
      → Refines n s law (specified op m) m (performed n s op w)
  performed-Refines (read_op id) m w ne a rep =
      unfold specified performed read_entry in read_from-Refines m id a w rep s.filers ne
  performed-Refines (write_op id params) m w ne a rep = write-Refines m id a w rep params
  performed-Refines (delete_op id) m w ne a rep = delete-Refines m id a w rep
