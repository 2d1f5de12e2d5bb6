-- ===== src/Common/Text.antt =====
-- The functions of Go's `strings` package that the driver calls, on texts as lists of characters.
use Prim.Native.Nat.{ℕ, ◌+◌}
use Prim.Native.Char.{Char, code}
use Prim.Native.String.{String, [], ◌∷◌, ◌++◌}
use mathlib.Core.Bool.{Bool, true, false, ◌&&◌, ◌||◌}
use mathlib.Core.Option.{Option, none, some}
use mathlib.Core.List.{List}
use forks_seaweedfs_csi_driv.Common.Tests.{eqb, leb, if◌then◌else◌}
use forks_seaweedfs_csi_driv.Common.Lists.{member}

-- `strings.HasPrefix(s, prefix)`
abbrev pub has_prefix : String → String → Bool
has_prefix s [] = true
has_prefix [] (p ∷ prefix) = false
has_prefix (c ∷ s) (p ∷ prefix) = eqb (code c) (code p) && has_prefix s prefix

-- `strings.Contains(s, part)`
abbrev pub contains : String → String → Bool
contains [] part = has_prefix [] part
contains (c ∷ s) part = has_prefix (c ∷ s) part || contains s part

abbrev drop_prefix : String → String → String
drop_prefix s [] = s
drop_prefix [] (p ∷ prefix) = []
drop_prefix (c ∷ s) (p ∷ prefix) = drop_prefix s prefix

-- `strings.TrimPrefix(s, prefix)`
abbrev pub trim_prefix : String → String → String
trim_prefix s prefix = if has_prefix s prefix then drop_prefix s prefix else s

-- `before, _, _ := strings.Cut(s, sep)` for a separator of one character
abbrev pub before_char : ℕ → String → String
before_char sep [] = []
before_char sep (c ∷ s) = if eqb (code c) sep then [] else c ∷ before_char sep s

-- One character in front of a text that is cut.
abbrev pub cut_step : ℕ → Char → String → Option (String × String) → Option (String × String)
cut_step sep c s (some (before, after)) = some (c ∷ before, after)
cut_step sep c s none = if eqb (code c) sep then some ([], s) else none

-- The text before the last separator, and the text behind it.
abbrev pub cut_last : ℕ → String → Option (String × String)
cut_last sep [] = none
cut_last sep (c ∷ s) = cut_step sep c s (cut_last sep s)

abbrev pub push_front : Char → List String → List String
push_front c List.[] = List.◌∷◌ (c ∷ []) List.[]
push_front c (List.◌∷◌ part rest) = List.◌∷◌ (c ∷ part) rest

-- `strings.Split(s, sep)` for a separator of one character
abbrev pub split : ℕ → String → List String
split sep [] = List.◌∷◌ [] List.[]
split sep (c ∷ s) =
    let rest = split sep s in if eqb (code c) sep then List.◌∷◌ [] rest else push_front c rest

-- Some character of the text passes the test.
abbrev pub any_char : (ℕ → Bool) → String → Bool
any_char p [] = false
any_char p (c ∷ s) = p (code c) || any_char p s

-- `strings.Join(parts, sep)`
abbrev pub join : String → List String → String
join sep List.[] = []
join sep (List.◌∷◌ x List.[]) = x
join sep (List.◌∷◌ x (List.◌∷◌ y rest)) = x ++ (sep ++ join sep (List.◌∷◌ y rest))

-- The bytes of a text, if it is ASCII.
abbrev pub bytes : String → List ℕ
bytes [] = List.[]
bytes (c ∷ s) = List.◌∷◌ (code c) (bytes s)

-- `strings.ToLower` on the code points, as far as a comparison with an ASCII text can tell: the two
-- other characters whose lower case is an ASCII letter are U+0130 and U+212A.
abbrev pub lower : ℕ → ℕ
lower c =
    if leb b'A' c && leb c b'Z'
    then c + 32
    else if eqb c 0x130
    then b'i'
    else if eqb c 0x212a
    then b'k'
    else c

-- `strings.ToLower(s) == t` for a text `t` in lower case.
abbrev pub equals_lower : String → String → Bool
equals_lower [] [] = true
equals_lower (c ∷ s) (d ∷ t) = eqb (lower (code c)) (code d) && equals_lower s t
equals_lower _ _ = false

-- `strconv.ParseBool`
abbrev pub parse_bool : String → Option Bool
parse_bool s =
    if member s (
      List.◌∷◌ "1"
        (List.◌∷◌ "t" (List.◌∷◌ "T" (List.◌∷◌ "TRUE" (List.◌∷◌ "true" (List.◌∷◌ "True" List.[]))))))
    then some true
    else if member s (
        List.◌∷◌ "0" (
          List.◌∷◌ "f"
            (List.◌∷◌ "F" (List.◌∷◌ "FALSE" (List.◌∷◌ "false" (List.◌∷◌ "False" List.[]))))))
    then some false
    else none

-- `unicode.IsSpace`
abbrev pub is_space : ℕ → Bool
is_space c =
    leb 9 c && leb c 13
    || (eqb c 32
        || (eqb c 0x85
            || (eqb c 0xa0
                || (eqb c 0x1680
                    || (leb 0x2000 c && leb c 0x200a
                        || (eqb c 0x2028
                            || (eqb c 0x2029
                                || (eqb c 0x202f || (eqb c 0x205f || eqb c 0x3000)))))))))

-- The pieces between the characters that pass the test, empty ones included.
abbrev pub split_when : (ℕ → Bool) → String → List String
split_when p [] = List.◌∷◌ [] List.[]
split_when p (c ∷ s) =
    let rest = split_when p s in if p (code c) then List.◌∷◌ [] rest else push_front c rest

abbrev pub drop_empty : List String → List String
drop_empty List.[] = List.[]
drop_empty (List.◌∷◌ [] rest) = drop_empty rest
drop_empty (List.◌∷◌ (c ∷ s) rest) = List.◌∷◌ (c ∷ s) (drop_empty rest)

-- `strings.Fields(s)`
abbrev pub fields : String → List String
fields s = drop_empty (split_when is_space s)

-- `strings.ReplaceAll(s, old, new)` for two characters
abbrev pub replace_char : ℕ → Char → String → String
replace_char old new [] = []
replace_char old new (c ∷ s) =
    let rest = replace_char old new s in if eqb (code c) old then new ∷ rest else c ∷ rest

-- The text from the first occurrence of `part` on.
abbrev pub from_part : String → String → Option String
from_part part [] = if has_prefix [] part then some [] else none
from_part part (c ∷ s) =
    let later = from_part part s in if has_prefix (c ∷ s) part then some (c ∷ s) else later
