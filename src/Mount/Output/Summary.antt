-- ===== src/Mount/Output/Summary.antt =====
-- What summary of processOutput prints.
use forks_seaweedfs_csi_driv.Common.{
  ℕ, zero, suc, ◌+◌, ◌-◌, ◌≤◌, ◌<◌, ◌≡◌, ◌≢◌, refl, sym, ap, ◌∙◌, ◌⊎◌, inl, inr, List, [], ◌∷◌,
  ◌++◌, arith, length, length-append, eqb, ltb, true, false,
}
use mathlib.Core.List.{append_assoc, append-nil}
use forks_seaweedfs_csi_driv.Common.Text.{bytes}
use forks_seaweedfs_csi_driv.Common.Decimal.{format_nat}
use forks_seaweedfs_csi_driv.Mount.Output.{
  Line, ProcessOutput, no_output, add_all, join_lines, summary,
}
use forks_seaweedfs_csi_driv.Mount.Output.Kept.{Keeps, add_all-Keeps}

length-zero : (ls : List Line) → length ls ≡ 0 → ls ≡ []
length-zero [] h = refl
length-zero (l ∷ ls) h = absurd (omega (arith, h))

join_lines-append :
    (xs ys : List Line)
    → xs ≢ []
    → ys ≢ []
    → join_lines (xs ++ ys) ≡ join_lines xs ++ (10 ∷ join_lines ys)
unfolding join_lines
join_lines-append [] ys h k = absurd (h refl)
join_lines-append (x ∷ []) [] h k = absurd (k refl)
join_lines-append (x ∷ []) (y ∷ ys) h k = refl
join_lines-append (x ∷ z ∷ xs) ys h k =
    rw (join_lines-append (z ∷ xs) ys (λ e. cc e) k) (simp append_assoc)

-- The note on the lines left out, between the head and the tail.
abbrev pub with_gap : List Line → ℕ → List Line → Line
with_gap head n tail =
    join_lines head
    ++ (10 ∷ bytes "... ("
        ++ (bytes (format_nat n) ++ (bytes " lines omitted) ..." ++ (10 ∷ join_lines tail))))

-- The first five lines and the last five, with the number of those between them.
abbrev pub IsAbridged : List Line → Line → Type 0
IsAbridged ls text =
    (head : List Line) × (middle : List Line) × (tail : List Line) × (ls ≡ head ++ (middle ++ tail))
    × (length head ≡ 5)
    × (length tail ≡ 5)
    × (text ≡ with_gap head (length middle) tail)

module _ (ls : List Line) (o : ProcessOutput) (k : Keeps ls o)
    (omitted : o.lines - length o.head - length o.tail ≡ length k.middle) where
  whole : length ls ≡ length o.head + (length k.middle + length o.tail)
  whole = ap length k.split ∙ rw (length-append, length-append) refl

  summary-whole :
      k.middle ≡ []
      → (length o.tail ≡ 0) ⊎ ((0 < length o.tail) × (0 < length o.head))
      → 0 < length ls
      → summary o ≡ join_lines ls
  unfolding summary
  summary-whole gapless (inl bare) some_ =
      let counted : eqb o.lines 0 ≡ false = ground (arith, k.counted) in
      let empty : eqb (length o.tail) 0 ≡ true = ground arith in
      let same : ls ≡ o.head =
        k.split ∙ rw (gapless, length-zero o.tail bare) (append-nil o.head) in
      rw (counted, empty) (ap join_lines (sym same))
  summary-whole gapless (inr (long, first)) some_ =
      let counted : eqb o.lines 0 ≡ false = ground (arith, k.counted) in
      let filled : eqb (length o.tail) 0 ≡ false = ground arith in
      let none_left : ltb 0 (o.lines - length o.head - length o.tail) ≡ false =
        ground (arith, omitted, ap length gapless) in
      let same : ls ≡ o.head ++ o.tail = k.split ∙ rw gapless refl in
      rw (counted, filled, none_left)
        (sym (
          ap join_lines same
          ∙ join_lines-append o.head o.tail (λ e. omega (arith, ap length e))
              (λ e. omega (arith, ap length e))))

  summary-gap :
      0 < length k.middle → 0 < length o.tail → summary o ≡ with_gap o.head (length k.middle) o.tail
  unfolding summary
  summary-gap gap long =
      let counted : eqb o.lines 0 ≡ false = ground (arith, k.counted, whole) in
      let filled : eqb (length o.tail) 0 ≡ false = ground arith in
      let left_out : ltb 0 (length k.middle) ≡ true = ground arith in
      rw (counted, filled, omitted, left_out) refl

  short_gapless : length ls ≤ 10 → k.middle ≡ []
  short_gapless few = elim k.tail_first [
    | inl gapless ↦ gapless
    | inr full ↦ elim k.head_first [
      | inl first ↦ length-zero k.middle (omega (arith, whole, full, first, few))
      | inr (gapless, empty) ↦ gapless
    ]
  ]

  tail_or_none : (length o.tail ≡ 0) ⊎ ((0 < length o.tail) × (0 < length o.head))
  tail_or_none = elim k.head_first [
    | inr (gapless, empty) ↦ inl (ap length empty)
    | inl first ↦ zero_or_more (length o.tail) (omega (arith, first))
  ]
    where
      zero_or_more : (n : ℕ) → 0 < length o.head → (n ≡ 0) ⊎ ((0 < n) × (0 < length o.head))
      zero_or_more zero h = inl refl
      zero_or_more (suc n) h = inr (omega arith, h)

  full_head : 10 < length ls → length o.head ≡ 5
  full_head many = elim k.head_first [
    | inl first ↦ first
    | inr (gapless, empty) ↦
        absurd (omega (arith, whole, k.head_bound, ap length gapless, ap length empty, many))
  ]

  full_tail : 10 < length ls → length o.tail ≡ 5
  full_tail many = elim k.tail_first [
    | inr full ↦ full
    | inl gapless ↦
        absurd (omega (arith, whole, k.head_bound, k.tail_bound, ap length gapless, many))
  ]

  summary-IsAbridged : 10 < length ls → IsAbridged ls (summary o)
  summary-IsAbridged many =
      let first = full_head many in
      let full = full_tail many in
      (
        o.head,
        k.middle,
        o.tail,
        k.split,
        first,
        full,
        summary-gap (omega (arith, whole, first, full, many)) (omega (arith, full)),
      )

-- What the summary prints of the lines of a process: without any, that there was no output; up to ten
-- lines whole, one below the other; of more than ten lines the first five, a note with the number of
-- lines left out, which is the number between them, and the last five.
pub summary_lem :
    (ls : List Line)
    → let text = summary (add_all ls no_output) in
      (ls ≡ [] → text ≡ bytes "no output")
      × (0 < length ls → length ls ≤ 10 → text ≡ join_lines ls)
      × (10 < length ls → IsAbridged ls text)
summary_lem ls =
    let o = add_all ls no_output in
    let (k, omitted) = add_all-Keeps ls in
    (
      λ e. rw e nothing_printed,
      λ some_ few.
          summary-whole ls o k omitted (short_gapless ls o k omitted few)
            (tail_or_none ls o k omitted) some_,
      λ many. summary-IsAbridged ls o k omitted many,
    )
  where
    nothing_printed : summary (add_all [] no_output) ≡ bytes "no output"
    nothing_printed = unfold summary add_all in refl
