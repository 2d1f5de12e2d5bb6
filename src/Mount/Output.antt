-- ===== src/Mount/Output.antt =====
-- The output of a weed mount process: processOutput and lineWriter of pkg/mountmanager/manager.go.
-- A line is the list of its bytes.
pub mod Kept
pub mod Lines
pub mod Summary
use forks_seaweedfs_csi_driv.Common.{
  ℕ, zero, suc, ◌+◌, ◌-◌, ◌*◌, Bool, true, false, Option, none, some, List, [], ◌∷◌, ◌++◌, ltb, leb,
  eqb, length, if◌then◌else◌,
}
use forks_seaweedfs_csi_driv.Common.Text.{bytes}
use forks_seaweedfs_csi_driv.Common.Decimal.{format_nat}

abbrev pub Line : Type 0
Line = List ℕ

abbrev pub output_keep_lines : ℕ
output_keep_lines = 5

abbrev pub max_line_bytes : ℕ
max_line_bytes = 64 * 1024

pub record ProcessOutput : Type 0 where
  pub head : List Line
  pub tail : List Line
  pub lines : ℕ

abbrev pub no_output : ProcessOutput
no_output = record { head = []; tail = []; lines = 0 }

-- `tail[1:]`
abbrev drop_first : List Line → List Line
drop_first [] = []
drop_first (x ∷ xs) = xs

-- processOutput.add
unfoldable pub add : Line → ProcessOutput → ProcessOutput
add line o =
    let counted = record o { lines = o.lines + 1 } in
    let longer = o.tail ++ line ∷ [] in
    if ltb (length o.head) output_keep_lines
    then record counted { head = o.head ++ line ∷ [] }
    else record counted {
      tail = if ltb output_keep_lines (length longer) then drop_first longer else longer;
    }

unfoldable pub add_all : List Line → ProcessOutput → ProcessOutput
unfolding add
add_all [] o = o
add_all (l ∷ ls) o = add_all ls (add l o)

-- `strings.Join(lines, "\n")`
unfoldable pub join_lines : List Line → Line
join_lines [] = []
join_lines (l ∷ []) = l
join_lines (l ∷ m ∷ ls) = l ++ 10 ∷ join_lines (m ∷ ls)

-- processOutput.summary
unfoldable pub summary : ProcessOutput → Line
unfolding join_lines
summary o =
    let omitted = o.lines - length o.head - length o.tail in
    let head = join_lines o.head in
    let tail = join_lines o.tail in
    if eqb o.lines 0
    then bytes "no output"
    else if eqb (length o.tail) 0
    then head
    else if ltb 0 omitted
    then head
      ++ (10 ∷ bytes "... ("
          ++ (bytes (format_nat omitted) ++ (bytes " lines omitted) ..." ++ (10 ∷ tail))))
    else head ++ (10 ∷ tail)

-- The line before the first newline and what follows it: `bytes.IndexByte(w.buf, '\n')`.
unfoldable pub cut_newline : List ℕ → Option (Line × List ℕ)
cut_newline [] = none
cut_newline (b ∷ bs) =
    if eqb b 10
    then some ([], bs)
    else elim (cut_newline bs) [ none ↦ none | some (line, rest) ↦ some (b ∷ line, rest) ]

-- `strings.TrimSuffix(line, "\r")`
unfoldable pub trim_cr : Line → Line
trim_cr [] = []
trim_cr (b ∷ []) = if eqb b 13 then [] else b ∷ []
trim_cr (b ∷ c ∷ bs) = b ∷ trim_cr (c ∷ bs)

-- A line writer between two writes, with the lines that it has handed over so far, in order.
pub record LineWriter : Type 0 where
  pub buf : List ℕ
  pub added : List Line

-- The loop of lineWriter.Write; `none` means that the fuel ran out.
unfoldable pub drain : ℕ → LineWriter → Option LineWriter
unfolding cut_newline trim_cr
drain zero w = none
drain (suc fuel) w = elim (cut_newline w.buf) [
  | none ↦
      if leb max_line_bytes (length w.buf)
      then some (record { buf = []; added = w.added ++ w.buf ∷ [] })
      else some w
  | some (line, rest) ↦ drain fuel (record { buf = rest; added = w.added ++ trim_cr line ∷ [] })
]

-- lineWriter.Write: every round of the loop takes a byte at least.
unfoldable pub write : List ℕ → LineWriter → Option LineWriter
unfolding drain
write p w = let buf = w.buf ++ p in drain (suc (length buf)) (record w { buf = buf })

-- lineWriter.flush
unfoldable pub flush : LineWriter → LineWriter
unfolding trim_cr
flush w = elim w.buf [
  | [] ↦ w
  | b ∷ bs ↦ record { buf = []; added = w.added ++ trim_cr (b ∷ bs) ∷ [] }
]
