-- ===== src/Mount/Output/Lines.antt =====
-- How the output stream is split into lines: Write and flush of lineWriter.
use forks_seaweedfs_csi_driv.Common.{
  ℕ, zero, suc, ◌<◌, ◌≡◌, refl, ◌∙◌, inl, inr, ◌&&◌, none, some, List, [], ◌∷◌, ◌++◌, map, arith,
  eqb, leb, length, if◌then◌else◌, Option-cases, Bool-cases,
}
use mathlib.Core.List.{append_assoc, append-nil, map-append}
use forks_seaweedfs_csi_driv.Mount.Output.{
  Line, LineWriter, cut_newline, trim_cr, drain, write, max_line_bytes,
}

-- The byte in front belongs to the first line, or to the line that is not complete.
extend : ℕ → List Line × List ℕ → List Line × List ℕ
extend b ([], rest) = ([], b ∷ rest)
extend b (l ∷ ls, rest) = ((b ∷ l) ∷ ls, rest)

-- The complete lines of a stream, and the bytes behind the last newline.
unfoldable pub lines_of : List ℕ → List Line × List ℕ
unfolding extend
lines_of [] = ([], [])
lines_of (b ∷ bs) =
    let (ls, rest) = lines_of bs in if eqb b 10 then ([] ∷ ls, rest) else extend b (ls, rest)

lines_of-none : (bs : List ℕ) → cut_newline bs ≡ none → lines_of bs ≡ ([], bs)
unfolding lines_of cut_newline
lines_of-none [] h = refl
lines_of-none (b ∷ bs) h = ground (arith, lines_of-none bs)

lines_of-some :
    (bs line rest : List ℕ)
    → cut_newline bs ≡ some (line, rest)
    → (lines_of bs ≡ (line ∷ (lines_of rest).0, (lines_of rest).1)) × (length rest < length bs)
unfolding lines_of cut_newline
lines_of-some [] line rest h = cc
lines_of-some (b ∷ bs) line rest h = elim (Option-cases (cut_newline bs)) [
  | inl e ↦ ground (arith, e)
  | inr ((l, r), e) ↦ ground (arith, e, lines_of-some bs l r e)
]

lines_of-append :
    (xs ys : List ℕ)
    → lines_of (xs ++ ys) ≡ (
      (lines_of xs).0 ++ (lines_of ((lines_of xs).1 ++ ys)).0,
      (lines_of ((lines_of xs).1 ++ ys)).1,
    )
unfolding lines_of
lines_of-append [] ys = refl
lines_of-append (b ∷ xs) ys = ground (arith, lines_of-append xs ys)

-- With more fuel than bytes, and less than 64 KiB of them behind the last newline, the loop ends and
-- hands over the complete lines.
drain_lem :
    (fuel : ℕ) (buf : List ℕ) (added : List Line)
    → length buf < fuel
    → length (lines_of buf).1 < max_line_bytes
    → drain fuel (record { buf = buf; added = added })
      ≡ some (record { buf = (lines_of buf).1; added = added ++ map trim_cr (lines_of buf).0 })
unfolding drain
drain_lem zero buf added h m = elim h [ ]
drain_lem (suc fuel) buf added h m = elim (Option-cases (cut_newline buf)) [
  | inl e ↦
      let whole = lines_of-none buf e in rw (e, drain) (ground (arith, whole, append-nil added))
  | inr ((line, rest), e) ↦
      let (split, shorter) = lines_of-some buf line rest e in
      rw (e, drain)
        (drain_lem fuel rest (added ++ trim_cr line ∷ []) (omega arith) (rw split at m)
          ∙ rw split (simp append_assoc))
]

-- Every write ends, however long the buffer has become: the fuel is enough.
pub write_total : (p : List ℕ) (w : LineWriter) → (w' : LineWriter) × (write p w ≡ some w')
unfolding write
write_total p w = drain_total (suc (length (w.buf ++ p))) (w.buf ++ p) w.added (omega arith)
  where
    drain_total :
        (fuel : ℕ) (buf : List ℕ) (added : List Line)
        → length buf < fuel
        → (w' : LineWriter) × (drain fuel (record { buf = buf; added = added }) ≡ some w')
    drain_total zero buf added h = elim h [ ]
    drain_total (suc fuel) buf added h = elim (Option-cases (cut_newline buf)) [
      | inl e ↦ elim (Bool-cases (leb max_line_bytes (length buf))) [
        | inl long ↦ (record { buf = []; added = added ++ buf ∷ [] }, rw (e, drain) (rw long))
        | inr short ↦ (record { buf = buf; added = added }, rw (e, drain) (rw short))
      ]
      | inr ((line, rest), e) ↦
          let (w', h') =
            drain_total fuel rest (added ++ trim_cr line ∷ [])
              (omega (arith, (lines_of-some buf line rest e).1)) in
          (w', rw (e, drain) h')
    ]

-- The line but for a carriage return at its end.
abbrev pub without_cr : Line → Line
without_cr [] = []
without_cr (b ∷ bs) = if eqb b 13 && eqb (length bs) 0 then [] else b ∷ without_cr bs

trim_cr_lem : (l : Line) → trim_cr l ≡ without_cr l
unfolding trim_cr
trim_cr_lem [] = refl
trim_cr_lem (b ∷ []) = ground arith
trim_cr_lem (b ∷ c ∷ bs) = ground (arith, trim_cr_lem (c ∷ bs))

map-trim_cr : (ls : List Line) → map trim_cr ls ≡ map without_cr ls
map-trim_cr [] = refl
map-trim_cr (l ∷ ls) = rw (trim_cr_lem l, map-trim_cr ls) refl

-- As long as neither of two writes leaves an incomplete line of 64 KiB or more in the buffer, it makes
-- no difference whether the bytes come in two writes or in one, however many lines there are and
-- wherever the cut is: the complete lines of the whole stream are handed over, without a carriage
-- return at their ends, and the bytes behind the last newline stay in the buffer.
pub write-write :
    (p q buf : List ℕ) (added : List Line)
    → length (lines_of (buf ++ p)).1 < max_line_bytes
    → length (lines_of (buf ++ (p ++ q))).1 < max_line_bytes
    → let (ls, rest) = lines_of (buf ++ (p ++ q)) in
      let whole : LineWriter = record { buf = rest; added = added ++ map without_cr ls } in
      (w : LineWriter) × (write p (record { buf = buf; added = added }) ≡ some w)
      × (write q w ≡ some whole)
      × (write (p ++ q) (record { buf = buf; added = added }) ≡ some whole)
unfolding write
write-write p q buf added h k =
    let all = buf ++ (p ++ q) in
    let first = lines_of (buf ++ p) in
    let last = lines_of (first.1 ++ q) in
    let split : lines_of all ≡ (first.0 ++ last.0, last.1) =
      rw append_assoc at (lines_of-append (buf ++ p) q) in
    let later : length (lines_of (first.1 ++ q)).1 < max_line_bytes = rw split at k in
    (
      record { buf = first.1; added = added ++ map trim_cr first.0 },
      drain_lem (suc (length (buf ++ p))) (buf ++ p) added (omega arith) h,
      drain_lem (suc (length (first.1 ++ q))) (first.1 ++ q) _ (omega arith) later
          ∙ rw split
              (rw (map-trim_cr first.0, map-trim_cr last.0) (simp (map-append, append_assoc))),
      drain_lem (suc (length all)) all added (omega arith) k
          ∙ rw (map-trim_cr (lines_of all).0) refl,
    )
