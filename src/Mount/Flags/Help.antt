-- ===== src/Mount/Flags/Help.antt =====
-- parseWeedMountHelp of pkg/mountmanager/mount_flags.go, on a text whose lines end in a newline. A
-- carriage return at the end of a line is left on it: no name has one.
use Prim.Native.Char.{code}
use Prim.Native.String.{len}
use text.Mathlib.TextLemmas.{nil-append, cons-append}
use forks_seaweedfs_csi_driv.Common.{
  ℕ, String, ◌<>◌, ◌≡◌, ◌≢◌, ◌⊎◌, refl, ap, ◌∙◌, Bool, true, false, ◌||◌, Option, none, some, List,
  [], ◌∷◌, eqb, leb, if◌then◌else◌, All, map, arith,
}
use forks_seaweedfs_csi_driv.Common.Text.{
  is_space, has_prefix, trim_prefix, split_when, join, any_char,
}
use forks_seaweedfs_csi_driv.Common.Words.{Lacks, not_or, split_when-join}

-- What ends a match of `[^\s=]+`.
unfoldable pub ends_name : ℕ → Bool
ends_name c = eqb c 9 || (eqb c 10 || (eqb c 12 || (eqb c 13 || (eqb c 32 || eqb c b'='))))

unfoldable pub name_in : String → String
unfolding ends_name
name_in String.[] = String.[]
name_in (String.◌∷◌ c s) = if ends_name (code c) then String.[] else String.◌∷◌ c (name_in s)

unfoldable pub named : String → Option String
named String.[] = none
named (String.◌∷◌ c s) = some (String.◌∷◌ c s)

-- helpFlagLine.FindStringSubmatch
unfoldable pub help_flag : String → Option String
unfolding name_in named
help_flag line = if has_prefix line "  -" then named (name_in (trim_prefix line "  -")) else none

unfoldable pub collected : Option String → List String → List String
collected none names = names
collected (some name) names = name ∷ names

-- The loop over the lines; the scanner stops at a line that its buffer of 64 KiB does not hold.
unfoldable pub names_in : List String → List String
unfolding help_flag collected
names_in [] = []
names_in (line ∷ lines) =
    let rest = names_in lines in
    if leb 65536 (len line) then [] else collected (help_flag line) rest

abbrev is_newline : ℕ → Bool
is_newline c = eqb c b'\n'

unfoldable pub parse_weed_mount_help : String → List String
unfolding names_in
parse_weed_mount_help help = names_in (split_when is_newline help)

-- A line of a help text: any text, or a flag's name with what stands behind it.
pub data HelpLine : Type 0 where
  text_line : String → HelpLine
  flag_line : String → String → HelpLine

unfoldable pub print_line : HelpLine → String
print_line (text_line s) = s
print_line (flag_line name rest) = String.◌∷◌ " " (String.◌∷◌ " " (String.◌∷◌ "-" (name <> rest)))

abbrev shown_flag : HelpLine → Option String
shown_flag (text_line s) = none
shown_flag (flag_line name rest) = some name

abbrev pub flags_of : List HelpLine → List String
flags_of [] = []
flags_of (text_line s ∷ ls) = flags_of ls
flags_of (flag_line name rest ∷ ls) = name ∷ flags_of ls

-- White space, or an equals sign.
unfoldable pub is_stop : ℕ → Bool
is_stop c = is_space c || eqb c b'='

-- Nothing, or a text that begins with a blank, a tab or an equals sign.
abbrev pub StandsApart : String → Type 0
StandsApart String.[] = Unit
StandsApart (String.◌∷◌ c s) = (code c ≡ 32) ⊎ (code c ≡ 9) ⊎ (code c ≡ b'=')

abbrev pub IsOf : HelpLine → Type 0
IsOf (text_line s) = has_prefix s "  -" ≡ false
IsOf (flag_line name rest) = Lacks is_stop name × (name ≢ "") × StandsApart rest

-- A line of its kind, in one piece, that fits the scanner's buffer.
pub record IsHelpLine (l : HelpLine) : Type 0 where
  pub of_kind : IsOf l
  pub one_piece : Lacks is_newline (print_line l)
  pub fits : leb 65536 (len (print_line l)) ≡ false

plain_char : (c : ℕ) → is_stop c ≡ false → ends_name c ≡ false
unfolding ends_name is_stop
plain_char c h = ground arith

apart_char : (c : ℕ) → (c ≡ 32) ⊎ (c ≡ 9) ⊎ (c ≡ b'=') → ends_name c ≡ true
unfolding ends_name
apart_char c h = ground arith

name_in-append :
    (name rest : String) → Lacks is_stop name → StandsApart rest → name_in (name <> rest) ≡ name
unfolding name_in
name_in-append String.[] String.[] h k = refl
name_in-append String.[] (String.◌∷◌ c s) h k = rw (nil-append, apart_char (code c) k) refl
name_in-append (String.◌∷◌ c name) rest h k =
    let (plain, others) = not_or (is_stop (code c)) (any_char is_stop name) h in
    rw (cons-append, plain_char (code c) plain, name_in-append name rest others k) refl

named_lem : (name : String) → name ≢ "" → named name ≡ some name
unfolding named
named_lem String.[] h = absurd (h refl)
named_lem (String.◌∷◌ c s) h = refl

help_flag-print_line : (l : HelpLine) → IsOf l → help_flag (print_line l) ≡ shown_flag l
unfolding help_flag print_line
help_flag-print_line (text_line s) h = rw h refl
help_flag-print_line (flag_line name rest) (plain, full, apart) =
    ap named (name_in-append name rest plain apart) ∙ named_lem name full

collected_lem :
    (l : HelpLine) (ls : List HelpLine) → collected (shown_flag l) (flags_of ls) ≡ flags_of (l ∷ ls)
unfolding collected
collected_lem (text_line s) ls = refl
collected_lem (flag_line name rest) ls = refl

names_in-print_line :
    (ls : List HelpLine) → All IsHelpLine ls → names_in (map print_line ls) ≡ flags_of ls
unfolding names_in
names_in-print_line [] h = refl
names_in-print_line (l ∷ ls) (h, hs) =
    rw (h.fits, help_flag-print_line l h.of_kind, names_in-print_line ls hs) (collected_lem l ls)

in_pieces : (ls : List HelpLine) → All IsHelpLine ls → All (Lacks is_newline) (map print_line ls)
in_pieces [] h = tt
in_pieces (l ∷ ls) (h, hs) = (h.one_piece, in_pieces ls hs)

-- Round trip: take a help text of lines shorter than 64 KiB, each a flag (two blanks, a dash, a name
-- without white space or an equals sign, and then a blank, a tab, an equals sign or the end) or a text
-- that does not begin with two blanks and a dash. parseWeedMountHelp finds the names of its flags, in
-- their order, and nothing else.
pub parse_weed_mount_help-print :
    (ls : List HelpLine)
    → All IsHelpLine ls
    → parse_weed_mount_help (join "\n" (map print_line ls)) ≡ flags_of ls
unfolding parse_weed_mount_help
parse_weed_mount_help-print [] h = refl
parse_weed_mount_help-print (l ∷ ls) h =
    ap names_in (
      split_when-join is_newline "\n" (print_line l) (map print_line ls) refl
        (in_pieces (l ∷ ls) h))
    ∙ names_in-print_line (l ∷ ls) h
