-- ===== src/Mount/Output/Kept.antt =====
-- Which lines of the output are kept: add of processOutput.
use forks_seaweedfs_csi_driv.Common.{
  ◌+◌, ◌-◌, ◌≤◌, ◌<◌, ◌≡◌, refl, ap, ◌⊎◌, inl, inr, List, [], ◌∷◌, ◌++◌, arith, length,
  length-append, Bool-cases, ltb, false,
}
use mathlib.Core.List.{append_assoc, append-nil}
use forks_seaweedfs_csi_driv.Mount.Output.{
  Line, ProcessOutput, no_output, add, add_all, drop_first, output_keep_lines,
}

-- The lines `seen` so far are the head, some lines that were left out, and the tail.
pub record Keeps (seen : List Line) (o : ProcessOutput) : Type 0 where
  pub middle : List Line
  pub split : seen ≡ o.head ++ (middle ++ o.tail)
  pub counted : o.lines ≡ length seen
  pub head_bound : length o.head ≤ output_keep_lines
  pub tail_bound : length o.tail ≤ output_keep_lines
  pub head_first : (length o.head ≡ output_keep_lines) ⊎ ((middle ≡ []) × (o.tail ≡ []))
  pub tail_first : (middle ≡ []) ⊎ (length o.tail ≡ output_keep_lines)

count-snoc : (seen : List Line) (line : Line) → length (seen ++ line ∷ []) ≡ length seen + 1
count-snoc seen line = rw length-append

-- The tail is full: its first line is left out.
shift :
    (line : Line) (seen head middle tail : List Line)
    → 0 < length tail
    → seen ≡ head ++ (middle ++ tail)
    → (m : List Line) × (seen ++ line ∷ [] ≡ head ++ (m ++ drop_first (tail ++ line ∷ [])))
      × (length (drop_first (tail ++ line ∷ [])) ≡ length tail)
shift line seen head middle [] h e = absurd (omega arith)
shift line seen head middle (x ∷ rest) h e =
    (middle ++ x ∷ [], rw e (simp append_assoc), rw length-append (omega arith))

-- While the tail has room, nothing was left out.
no_gap :
    (line : Line) (middle tail : List Line)
    → (middle ≡ []) ⊎ (length tail ≡ output_keep_lines)
    → ltb output_keep_lines (length (tail ++ line ∷ [])) ≡ false
    → middle ≡ []
no_gap line middle tail (inl e) h = e
no_gap line middle tail (inr full) h = absurd (ground (arith, count-snoc tail line))

add-Keeps :
    (line : Line) (seen : List Line) (o : ProcessOutput)
    → Keeps seen o
    → Keeps (seen ++ line ∷ []) (add line o)
unfolding add
add-Keeps line seen o k = elim (Bool-cases (ltb (length o.head) output_keep_lines)) [
  | inl room ↦ rw room (elim k.head_first [
    | inl full ↦ absurd (ground (arith, full))
    | inr (a, b) ↦ record {
      middle = [];
      split = rw (k.split, a, b) (simp (append_assoc, append-nil));
      counted = omega (arith, k.counted, count-snoc seen line);
      head_bound = ground (arith, count-snoc o.head line);
      tail_bound = k.tail_bound;
      head_first = inr (refl, b);
      tail_first = inl refl;
    }
  ])
  | inr full ↦ rw full (elim (Bool-cases (ltb output_keep_lines (length (o.tail ++ line ∷ [])))) [
    | inl over ↦
        let (m, split, same) =
          shift line seen o.head k.middle o.tail (ground (arith, count-snoc o.tail line)) k.split in
        rw over (record {
          middle = m;
          split = split;
          counted = omega (arith, k.counted, count-snoc seen line);
          head_bound = k.head_bound;
          tail_bound = omega (arith, k.tail_bound, same);
          head_first = inl (ground (arith, k.head_bound));
          tail_first = inr (ground (arith, count-snoc o.tail line, k.tail_bound, same));
        })
    | inr fits ↦ rw fits (record {
      middle = k.middle;
      split = rw k.split (simp append_assoc);
      counted = omega (arith, k.counted, count-snoc seen line);
      head_bound = k.head_bound;
      tail_bound = ground (arith, count-snoc o.tail line);
      head_first = inl (ground (arith, k.head_bound));
      tail_first = inl (no_gap line k.middle o.tail k.tail_first fits);
    })
  ])
]

add_all-Keeps_from :
    (seen ls : List Line) (o : ProcessOutput) → Keeps seen o → Keeps (seen ++ ls) (add_all ls o)
unfolding add_all
add_all-Keeps_from seen [] o k = rw append-nil k
add_all-Keeps_from seen (l ∷ ls) o k =
    rw append_assoc at (add_all-Keeps_from (seen ++ l ∷ []) ls (add l o) (add-Keeps l seen o k))

omitted-eq-length :
    {seen : List Line} {o : ProcessOutput} (k : Keeps seen o)
    → o.lines - length o.head - length o.tail ≡ length k.middle
omitted-eq-length {o} k = omega (
  arith,
  k.counted,
  ap length k.split,
  length-append o.head (k.middle ++ o.tail),
  length-append k.middle o.tail,
)

start-Keeps : Keeps [] no_output
start-Keeps = record {
  middle = [];
  split = refl;
  counted = refl;
  head_bound = omega arith;
  tail_bound = omega arith;
  head_first = inr (refl, refl);
  tail_first = inl refl;
}

-- Whatever lines a process prints, they are the kept head, some lines that were left out, and the
-- kept tail, in this order; all are counted; the head and the tail have at most five lines each;
-- nothing goes to the tail or is left out before the head is full, nothing is left out before the
-- tail is full, and the lines that are counted less those that are kept are the number left out.
pub add_all-Keeps :
    (ls : List Line)
    → let o = add_all ls no_output in
      (k : Keeps ls o) × (o.lines - length o.head - length o.tail ≡ length k.middle)
add_all-Keeps ls =
    let k = add_all-Keeps_from [] ls no_output start-Keeps in (k, omitted-eq-length k)
