-- ===== src/Driver/Arguments/Flags.antt =====
-- The names of flags, and ValidateMountArgs of pkg/driver/mounter.go.
use Prim.Native.Char.{Char, code}
use text.Mathlib.TextLemmas.{nil-append, cons-append}
use forks_seaweedfs_csi_driv.Common.{
  ℕ, String, ◌<>◌, ◌≡◌, refl, sym, ap, ◌∙◌, Bool, true, false, Option, none, some, List, [], ◌∷◌,
  eqb, if◌then◌else◌, All, member,
}
use forks_seaweedfs_csi_driv.Common.Text.{before_char, any_char}
use forks_seaweedfs_csi_driv.Common.Words.{Lacks, not_or}
use forks_seaweedfs_csi_driv.Common.Dict.{or_else}
use forks_seaweedfs_csi_driv.Common.Failure.{Failure}
use forks_seaweedfs_csi_driv.Driver.Arguments.{
  flag_of, managed_flags, validate_arg, validate_mount_args, flag,
}

abbrev pub is_equals : ℕ → Bool
is_equals c = eqb c b'='

before_char-append :
    (name value : String)
    → Lacks is_equals name
    → before_char b'=' (name <> String.◌∷◌ "=" value) ≡ name
before_char-append String.[] value h = rw nil-append
before_char-append (String.◌∷◌ c name) value h =
    let (plain, others) = not_or (is_equals (code c)) (any_char is_equals name) h in
    rw (cons-append, plain, before_char-append name value others)

one_char : (c : Char) (s : String) → String.◌∷◌ c String.[] <> s ≡ String.◌∷◌ c s
one_char c s = cons-append c String.[] s ∙ ap (String.◌∷◌ c) (nil-append s)

-- The flag that the driver prints has the name that it gives it.
pub flag_of-flag : (name value : String) → Lacks is_equals name → flag_of (flag name value) ≡ name
unfolding flag_of flag
flag_of-flag name value h =
    rw (one_char "-" (name <> ("=" <> value)), one_char "=" value) (before_char-append name value h)

-- Every argument for the flag has the property.
abbrev pub Sets : String → (String → Type 0) → List String → Type 0
Sets name P args = All (λ arg. flag_of arg ≡ name → P arg) args

-- What the driver prints for a flag of another name, or for this one.
pub flag-Sets :
    (P : String → Type 0) (key value name : String)
    → Lacks is_equals key
    → (key ≡ name → P (flag key value))
    → flag_of (flag key value) ≡ name
    → P (flag key value)
flag-Sets P key value name h k e = k (sym (flag_of-flag key value h) ∙ e)

-- An argument that ValidateMountArgs lets pass sets no managed flag.
or_else-none : (a b : Option Failure) → or_else a b ≡ none → (a ≡ none) × (b ≡ none)
or_else-none none b h = (refl, h)
or_else-none (some e) b h = cc

second_test :
    (a b : Bool) (e f : Failure)
    → (if a then some e else if b then some f else none) ≡ none
    → b ≡ false
second_test true b e f h = cc
second_test false true e f h = cc
second_test false false e f h = refl

validate_arg-member :
    (arg name : String) → validate_arg arg name ≡ none → member name managed_flags ≡ false
unfolding validate_arg
validate_arg-member arg name h = second_test _ _ _ _ h

pub validate_mount_args-Sets :
    (P : String → Type 0) (name : String) (args : List String)
    → member name managed_flags ≡ true
    → validate_mount_args args ≡ none
    → Sets name P args
unfolding validate_mount_args
validate_mount_args-Sets P name [] m h = tt
validate_mount_args-Sets P name (arg ∷ args) m h =
    let (first, rest) = or_else-none (validate_arg arg (flag_of arg)) _ h in
    let free = validate_arg-member arg (flag_of arg) first in
    (λ e. cc (ap (λ n. member n managed_flags) e), validate_mount_args-Sets P name args m rest)
