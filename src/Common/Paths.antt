-- ===== src/Common/Paths.antt =====
-- `filepath.Clean` and `filepath.Join`, on slash-separated paths.
use Prim.Native.Char.{Char, code}
use forks_seaweedfs_csi_driv.Common.{
  String, ◌<>◌, Bool, true, false, ◌||◌, Option, none, some, List, [], ◌∷◌, ◌==◌, eqb,
  if◌then◌else◌,
}
use forks_seaweedfs_csi_driv.Common.Text.{has_prefix, split, join, cut_last}

-- `..` behind the components that are kept, the last one first.
unfoldable pub go_up : Bool → List String → List String
go_up true [] = []
go_up false [] = ".." ∷ []
go_up rooted (top ∷ kept) = if top == ".." then ".." ∷ top ∷ kept else kept

unfoldable pub step_into : Bool → String → List String → List String
unfolding go_up
step_into rooted part kept =
    if part == "" || part == "."
    then kept
    else if part == ".."
    then go_up rooted kept
    else part ∷ kept

unfoldable pub walk : Bool → List String → List String → List String
unfolding step_into
walk rooted [] kept = kept
walk rooted (part ∷ parts) kept = walk rooted parts (step_into rooted part kept)

unfoldable pub reverse_onto : List String → List String → List String
reverse_onto [] rest = rest
reverse_onto (x ∷ xs) rest = reverse_onto xs (x ∷ rest)

unfoldable pub or_dot : String → String
or_dot path = if path == "" then "." else path

unfoldable pub clean : String → String
unfolding walk reverse_onto or_dot
clean path =
    let rooted = has_prefix path "/" in
    let kept = join "/" (reverse_onto (walk rooted (split b'/' path) []) []) in
    if rooted then "/" <> kept else or_dot kept

-- `filepath.Join` of two elements: those that are empty are left out.
unfoldable pub join_clean : String → String → String
unfolding clean
join_clean dir name =
    if dir == ""
    then (if name == "" then "" else clean name)
    else if name == ""
    then clean dir
    else clean (dir <> ("/" <> name))

unfoldable pub before_slash : Option (String × String) → String
unfolding clean
before_slash none = "."
before_slash (some (before, after)) = clean (before <> "/")

-- `path.Dir`
unfoldable pub parent_of : String → String
unfolding before_slash
parent_of path = before_slash (cut_last b'/' path)

unfoldable pub keep_char : Char → String → String
keep_char c String.[] = if eqb (code c) b'/' then String.[] else String.◌∷◌ c String.[]
keep_char c (String.◌∷◌ d s) = String.◌∷◌ c (String.◌∷◌ d s)

unfoldable pub drop_slashes : String → String
unfolding keep_char
drop_slashes String.[] = String.[]
drop_slashes (String.◌∷◌ c s) = keep_char c (drop_slashes s)

unfoldable pub or_slash : String → String
or_slash name = if name == "" then "/" else name

unfoldable pub after_slash : String → Option (String × String) → String
after_slash path none = path
after_slash path (some (before, after)) = after

-- `path.Base`
unfoldable pub base : String → String
unfolding drop_slashes or_slash after_slash
base path =
    let trimmed = drop_slashes path in
    if path == "" then "." else or_slash (after_slash trimmed (cut_last b'/' trimmed))
