-- ===== src/Driver/Container/Escapes.antt =====
-- How the kernel escapes a root and a mount point in a mount table, and that unescapeMountField of
-- pkg/driver/container_remount_linux.go undoes it.
use Prim.Native.Char.{Char, code}
use text.Mathlib.TextEquality.{Char-path}
use forks_seaweedfs_csi_driv.Common.{
  ℕ, String, ◌≡◌, ◌≢◌, refl, sym, ap, ◌∙◌, Bool, true, false, ◌&&◌, ◌||◌, not, inl, inr, eqb,
  if◌then◌else◌, Bool-cases, arith,
}
use forks_seaweedfs_csi_driv.Common.Text.{is_space, any_char}
use forks_seaweedfs_csi_driv.Common.Words.{Lacks, IsWord, not_or}
use forks_seaweedfs_csi_driv.Driver.Container.Entries.{unescape_mount_field}

-- The kernel writes a space, a tab, a newline and a backslash in octal.
escape_char : Char → String → String
escape_char c rest =
    if eqb (code c) 32
    then String.◌∷◌ "\\" (String.◌∷◌ "0" (String.◌∷◌ "4" (String.◌∷◌ "0" rest)))
    else if eqb (code c) 9
    then String.◌∷◌ "\\" (String.◌∷◌ "0" (String.◌∷◌ "1" (String.◌∷◌ "1" rest)))
    else if eqb (code c) 10
    then String.◌∷◌ "\\" (String.◌∷◌ "0" (String.◌∷◌ "1" (String.◌∷◌ "2" rest)))
    else if eqb (code c) b'\\'
    then String.◌∷◌ "\\" (String.◌∷◌ "1" (String.◌∷◌ "3" (String.◌∷◌ "4" rest)))
    else String.◌∷◌ c rest

unfoldable pub escape_mount_field : String → String
unfolding escape_char
escape_mount_field String.[] = String.[]
escape_mount_field (String.◌∷◌ c s) = escape_char c (escape_mount_field s)

unescape_plain :
    (c : Char) (rest : String)
    → eqb (code c) b'\\' ≡ false
    → unescape_mount_field (String.◌∷◌ c rest) ≡ String.◌∷◌ c (unescape_mount_field rest)
unfolding unescape_mount_field
unescape_plain c String.[] h = refl
unescape_plain c (String.◌∷◌ x String.[]) h = refl
unescape_plain c (String.◌∷◌ x (String.◌∷◌ y String.[])) h = refl
unescape_plain c (String.◌∷◌ x (String.◌∷◌ y (String.◌∷◌ z rest))) h = rw h

-- Whatever follows, the code of a character reads back as the character.
module _ (c : Char) (rest : String) where
  same :
      (d : Char)
      → eqb (code c) (code d) ≡ true
      → String.◌∷◌ d (unescape_mount_field rest) ≡ String.◌∷◌ c (unescape_mount_field rest)
  same d h = ap (λ x. String.◌∷◌ x (unescape_mount_field rest)) (Char-path d c (ground arith))

  -- Whatever follows, the code of a character reads back as the character.
  unescape-escape_char :
      unescape_mount_field (escape_char c rest) ≡ String.◌∷◌ c (unescape_mount_field rest)
  unfolding escape_char
  unescape-escape_char = elim (Bool-cases (eqb (code c) 32)) [
    | inl h ↦ rw h (unfold unescape_mount_field in same " " h)
    | inr h ↦ elim (Bool-cases (eqb (code c) 9)) [
      | inl k ↦ rw (h, k) (unfold unescape_mount_field in same "\t" k)
      | inr k ↦ elim (Bool-cases (eqb (code c) 10)) [
        | inl l ↦ rw (h, k, l) (unfold unescape_mount_field in same "\n" l)
        | inr l ↦ elim (Bool-cases (eqb (code c) b'\\')) [
          | inl m ↦ rw (h, k, l, m) (unfold unescape_mount_field in same "\\" m)
          | inr m ↦ rw (h, k, l, m) (unescape_plain c rest m)
        ]
      ]
    ]
  ]

pub unescape-escape : (s : String) → unescape_mount_field (escape_mount_field s) ≡ s
unfolding escape_mount_field unescape_mount_field
unescape-escape String.[] = refl
unescape-escape (String.◌∷◌ c s) =
    unescape-escape_char c (escape_mount_field s) ∙ ap (String.◌∷◌ c) (unescape-escape s)

-- White space other than what the kernel escapes.
abbrev pub is_kept_space : ℕ → Bool
is_kept_space c = is_space c && not (eqb c 32 || (eqb c 9 || eqb c 10))

-- A path whose white space the kernel escapes.
abbrev pub IsPath : String → Type 0
IsPath s = Lacks is_kept_space s × (s ≢ "")

not_kept :
    (space a b c : Bool)
    → space && not (a || (b || c)) ≡ false
    → a ≡ false
    → b ≡ false
    → c ≡ false
    → space ≡ false
not_kept space a b c h p q r = ground arith

escape_char-Lacks :
    (c : Char) (rest : String)
    → is_kept_space (code c) ≡ false
    → Lacks is_space rest
    → Lacks is_space (escape_char c rest)
unfolding escape_char
escape_char-Lacks c rest h k = elim (Bool-cases (eqb (code c) 32)) [
  | inl p ↦ rw p k
  | inr p ↦ elim (Bool-cases (eqb (code c) 9)) [
    | inl q ↦ rw (p, q) k
    | inr q ↦ elim (Bool-cases (eqb (code c) 10)) [
      | inl r ↦ rw (p, q, r) k
      | inr r ↦ elim (Bool-cases (eqb (code c) b'\\')) [
        | inl t ↦ rw (p, q, r, t) k
        | inr t ↦ rw (p, q, r, t, not_kept (is_space (code c)) _ _ _ h p q r) k
      ]
    ]
  ]
]

escape-Lacks : (s : String) → Lacks is_kept_space s → Lacks is_space (escape_mount_field s)
unfolding escape_mount_field
escape-Lacks String.[] h = refl
escape-Lacks (String.◌∷◌ c s) h =
    let (plain, others) = not_or (is_kept_space (code c)) (any_char is_kept_space s) h in
    escape_char-Lacks c (escape_mount_field s) plain (escape-Lacks s others)

escape-ne-nil : (s : String) → s ≢ "" → escape_mount_field s ≢ ""
unfolding unescape_mount_field
escape-ne-nil s h e = h (sym (unescape-escape s) ∙ ap unescape_mount_field e)

pub escape-IsWord : (s : String) → IsPath s → IsWord (escape_mount_field s)
escape-IsWord s (h, k) = (escape-Lacks s h, escape-ne-nil s k)
