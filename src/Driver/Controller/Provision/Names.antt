-- ===== src/Driver/Controller/Provision/Names.antt =====
-- A name below a clean directory, as path.Join, path.Dir and path.Base take it apart.
use Prim.Native.Char.{Char, code}
use mathlib.Core.Path.{subst}
use text.Mathlib.TextLemmas.{nil-append, cons-append, append_assoc}
use forks_seaweedfs_csi_driv.Common.{
  ℕ, String, ◌<>◌, ◌≡◌, ◌≢◌, refl, sym, ap, ◌∙◌, Bool, true, false, none, some, inl, inr, List, [],
  ◌∷◌, ◌++◌, ◌==◌, eq_iff, eqb, Bool-cases, arith,
}
use forks_seaweedfs_csi_driv.Common.Text.{split, split_when, any_char, cut_last, join}
use forks_seaweedfs_csi_driv.Common.Words.{Lacks, not_or, split_when-last}
use forks_seaweedfs_csi_driv.Common.Paths.{
  clean, join_clean, parent_of, base, step_into, walk, reverse_onto, keep_char, drop_slashes,
}

abbrev pub is_slash : ℕ → Bool
is_slash c = eqb c b'/'

split-split_when : (s : String) → split b'/' s ≡ split_when is_slash s
split-split_when String.[] = refl
split-split_when (String.◌∷◌ c s) = rw (split-split_when s)

split-ne-nil : (s : String) → (part : String) × (rest : List String) × (split b'/' s ≡ part ∷ rest)
split-ne-nil String.[] = (String.[], [], refl)
split-ne-nil (String.◌∷◌ c s) = elim (Bool-cases (is_slash (code c))) [
  | inl slash ↦ (String.[], split b'/' s, rw slash)
  | inr other ↦ let (part, rest, e) = split-ne-nil s in (String.◌∷◌ c part, rest, rw (other, e))
]

split-last : (n : String) → Lacks is_slash n → split b'/' n ≡ n ∷ []
split-last n h = split-split_when n ∙ split_when-last is_slash n h

split-append :
    (s n : String) → Lacks is_slash n → split b'/' (s <> String.◌∷◌ "/" n) ≡ split b'/' s ++ n ∷ []
split-append String.[] n h = rw (nil-append, split-last n h)
split-append (String.◌∷◌ c s) n h = elim (Bool-cases (is_slash (code c))) [
  | inl slash ↦ rw (cons-append, slash, split-append s n h)
  | inr other ↦
      let (part, rest, e) = split-ne-nil s in rw (cons-append, other, split-append s n h, e)
]

walk-append :
    (r : Bool) (xs : List String) (n : String) (kept : List String)
    → walk r (xs ++ n ∷ []) kept ≡ step_into r n (walk r xs kept)
unfolding walk
walk-append r [] n kept = refl
walk-append r (x ∷ xs) n kept = walk-append r xs n (step_into r x kept)

reverse_onto-append :
    (xs rest more : List String) → reverse_onto xs (rest ++ more) ≡ reverse_onto xs rest ++ more
unfolding reverse_onto
reverse_onto-append [] rest more = refl
reverse_onto-append (x ∷ xs) rest more = reverse_onto-append xs (x ∷ rest) more

reverse_onto-ne-nil :
    (xs : List String) (x : String) (rest : List String)
    → (y : String) × (ys : List String) × (reverse_onto xs (x ∷ rest) ≡ y ∷ ys)
unfolding reverse_onto
reverse_onto-ne-nil [] x rest = (x, rest, refl)
reverse_onto-ne-nil (z ∷ xs) x rest = reverse_onto-ne-nil xs z (x ∷ rest)

join-append :
    (x : String) (xs : List String) (n : String)
    → join "/" ((x ∷ xs) ++ n ∷ []) ≡ join "/" (x ∷ xs) <> ("/" <> n)
join-append x [] n = refl
join-append x (y ∷ xs) n =
    let tail = join "/" (y ∷ xs) in
    ap (λ t. x <> ("/" <> t)) (join-append y xs n)
    ∙ sym (
        append_assoc x ("/" <> tail) ("/" <> n)
        ∙ ap (λ t. x <> t) (append_assoc "/" tail ("/" <> n)))

-- A single element of a path.
pub record IsName (n : String) : Type 0 where
  pub no_slash : Lacks is_slash n
  pub not_empty : n ≢ ""
  pub not_dot : n ≢ "."
  pub not_dots : n ≢ ".."

-- A clean absolute path other than the root.
pub record IsDirectory (p : String) : Type 0 where
  pub rest : String
  pub rooted : p ≡ String.◌∷◌ "/" rest
  pub is_clean : clean p ≡ p
  pub not_root : p ≢ "/"

step_into-name : (n : String) (kept : List String) → IsName n → step_into true n kept ≡ n ∷ kept
unfolding step_into
step_into-name n kept h =
    ground (arith, eq_iff n "", eq_iff n ".", eq_iff n "..", h.not_empty, h.not_dot, h.not_dots)

one_slash : (s : String) → "/" <> s ≡ String.◌∷◌ "/" s
one_slash s = cons-append "/" String.[] s ∙ ap (String.◌∷◌ "/") (nil-append s)

-- What the components of a rooted path come to.
rooted_clean :
    (t : String)
    → clean (String.◌∷◌ "/" t)
      ≡ "/" <> join "/" (reverse_onto (walk true (split b'/' (String.◌∷◌ "/" t)) []) [])
unfolding clean
rooted_clean t = refl

joined_of : List String → String
joined_of kept = "/" <> join "/" (reverse_onto kept [])

clean_of :
    (p rest : String) → p ≡ String.◌∷◌ "/" rest → clean p ≡ joined_of (walk true (split b'/' p) [])
unfolding joined_of
clean_of p rest e =
    subst (λ q. clean q ≡ "/" <> join "/" (reverse_onto (walk true (split b'/' q) []) [])) (sym e)
      (rooted_clean rest)

-- One more component behind those that are kept.
joined-cons :
    (x : String) (kept : List String) (n : String)
    → joined_of (n ∷ x ∷ kept) ≡ joined_of (x ∷ kept) <> ("/" <> n)
unfolding joined_of reverse_onto
joined-cons x kept n =
    let (y, ys, e) = reverse_onto-ne-nil kept x [] in
    let split_off : reverse_onto kept (x ∷ n ∷ []) ≡ reverse_onto kept (x ∷ []) ++ n ∷ [] =
      reverse_onto-append kept (x ∷ []) (n ∷ []) in
    rw (split_off, e)
      (ap (λ t. "/" <> t) (join-append y ys n)
        ∙ sym (append_assoc "/" (join "/" (y ∷ ys)) ("/" <> n)))

join_clean-both :
    (a b : String)
    → (a == "") ≡ false
    → (b == "") ≡ false
    → join_clean a b ≡ clean (a <> ("/" <> b))
unfolding join_clean
join_clean-both a b h k = rw (h, k)

filled : (p rest : String) → p ≡ String.◌∷◌ "/" rest → (p == "") ≡ false
filled p rest e = elim (Bool-cases (p == "")) [
  | inl empty ↦ absurd (cc (sym e ∙ (eq_iff p "").0 empty))
  | inr full ↦ full
]

cut_last-none : (n : String) → Lacks is_slash n → cut_last b'/' n ≡ none
cut_last-none String.[] h = refl
cut_last-none (String.◌∷◌ c n) h =
    let (plain, others) = not_or (is_slash (code c)) (any_char is_slash n) h in
    rw (cut_last-none n others, plain)

cut_last-append :
    (s n : String) → Lacks is_slash n → cut_last b'/' (s <> String.◌∷◌ "/" n) ≡ some (s, n)
cut_last-append String.[] n h = rw (nil-append, cut_last-none n h)
cut_last-append (String.◌∷◌ c s) n h = rw (cons-append, cut_last-append s n h)

parent_of-cut :
    (p n : String)
    → cut_last b'/' (p <> String.◌∷◌ "/" n) ≡ some (p, n)
    → parent_of (p <> String.◌∷◌ "/" n) ≡ clean (p <> String.◌∷◌ "/" String.[])
unfolding parent_of
parent_of-cut p n e = rw e

drop_slashes-cons :
    (c d : Char) (n : String)
    → drop_slashes (String.◌∷◌ d n) ≡ String.◌∷◌ d n
    → drop_slashes (String.◌∷◌ c (String.◌∷◌ d n)) ≡ String.◌∷◌ c (String.◌∷◌ d n)
unfolding drop_slashes
drop_slashes-cons c d n e = ap (keep_char c) e ∙ unfold keep_char in refl

drop_slashes-name : (n : String) → Lacks is_slash n → drop_slashes n ≡ n
drop_slashes-name String.[] h = unfold drop_slashes in refl
drop_slashes-name (String.◌∷◌ c String.[]) h =
    let (plain, others) = not_or (is_slash (code c)) false h in unfold drop_slashes in rw plain
drop_slashes-name (String.◌∷◌ c (String.◌∷◌ d n)) h =
    let (plain, others) = not_or (is_slash (code c)) (any_char is_slash (String.◌∷◌ d n)) h in
    drop_slashes-cons c d n (drop_slashes-name (String.◌∷◌ d n) others)

-- Below something, a text that ends in no slash.
drop_slashes-append :
    (s : String) (c : Char) (n : String)
    → drop_slashes (String.◌∷◌ c n) ≡ String.◌∷◌ c n
    → drop_slashes (s <> String.◌∷◌ c n) ≡ s <> String.◌∷◌ c n
drop_slashes-append String.[] c n e = rw nil-append e
drop_slashes-append (String.◌∷◌ d String.[]) c n e =
    rw (cons-append, nil-append) (drop_slashes-cons d c n e)
drop_slashes-append (String.◌∷◌ d (String.◌∷◌ b s)) c n e =
    let below = drop_slashes-append (String.◌∷◌ b s) c n e in
    rw (cons-append, cons-append)
      (drop_slashes-cons d b (s <> String.◌∷◌ c n) (rw cons-append at below))

trimmed : (p n : String) → IsName n → drop_slashes (p <> String.◌∷◌ "/" n) ≡ p <> String.◌∷◌ "/" n
trimmed p String.[] h = absurd (h.not_empty refl)
trimmed p (String.◌∷◌ c n) h =
    drop_slashes-append p "/" (String.◌∷◌ c n)
      (drop_slashes-cons "/" c n (drop_slashes-name (String.◌∷◌ c n) h.no_slash))

base-cut :
    (p n rest : String) → p ≡ String.◌∷◌ "/" rest → IsName n → base (p <> String.◌∷◌ "/" n) ≡ n
unfolding base
base-cut p n rest e h =
    let whole : p <> String.◌∷◌ "/" n ≡ String.◌∷◌ "/" (rest <> String.◌∷◌ "/" n) =
      ap (λ q. q <> String.◌∷◌ "/" n) e ∙ cons-append "/" rest (String.◌∷◌ "/" n) in
    let named : (n == "") ≡ false = ground (arith, eq_iff n "", h.not_empty) in
    rw
      (filled (p <> String.◌∷◌ "/" n) _ whole, trimmed p n h, cut_last-append p n h.no_slash, named)

module _ (p : String) (dir : IsDirectory p) where
  kept : List String
  kept = walk true (split b'/' p) []

  rejoined : joined_of kept ≡ p
  unfolding kept
  rejoined = sym (clean_of p dir.rest dir.rooted) ∙ dir.is_clean

  kept-ne-nil :
      (k : List String) → joined_of k ≡ p → (x : String) × (xs : List String) × (k ≡ x ∷ xs)
  unfolding joined_of reverse_onto
  kept-ne-nil [] e = absurd (dir.not_root (sym e))
  kept-ne-nil (x ∷ xs) e = (x, xs, refl)

  below : String → String
  below n = p <> String.◌∷◌ "/" n

  clean-below :
      (n : String) → Lacks is_slash n → clean (below n) ≡ joined_of (step_into true n kept)
  unfolding kept below
  clean-below n h =
      let rooted : p <> String.◌∷◌ "/" n ≡ String.◌∷◌ "/" (dir.rest <> String.◌∷◌ "/" n) =
        ap (λ q. q <> String.◌∷◌ "/" n) dir.rooted ∙ cons-append "/" dir.rest (String.◌∷◌ "/" n) in
      clean_of (p <> String.◌∷◌ "/" n) _ rooted
      ∙ ap (λ parts. joined_of (walk true parts [])) (split-append p n h)
      ∙ ap joined_of (walk-append true (split b'/' p) n [])

  in_text : (n : String) → p <> ("/" <> n) ≡ below n
  unfolding below
  in_text n = ap (λ t. p <> t) (one_slash n)

  -- path.Join of the directory and a name only puts a slash between them.
  pub join_clean-name : (n : String) → IsName n → join_clean p n ≡ p <> ("/" <> n)
  join_clean-name n h =
      let (x, xs, e) = kept-ne-nil kept rejoined in
      let whole : joined_of kept ≡ p = rejoined in
      join_clean-both p n (filled p dir.rest dir.rooted) (ground (arith, eq_iff n "", h.not_empty))
      ∙ ap clean (in_text n)
      ∙ clean-below n h.no_slash
      ∙ ap joined_of (step_into-name n kept h ∙ ap (λ k. n ∷ k) e)
      ∙ joined-cons x xs n
      ∙ ap (λ q. q <> ("/" <> n)) (ap joined_of (sym e) ∙ whole)

  clean_slash : clean (below String.[]) ≡ p
  clean_slash = clean-below String.[] refl ∙ unfold step_into in rejoined

  -- path.Dir gives the directory back.
  pub parent_of-below : (n : String) → IsName n → parent_of (p <> ("/" <> n)) ≡ p
  parent_of-below n h =
      ap parent_of (in_text n)
      ∙ unfold below in (parent_of-cut p n (cut_last-append p n h.no_slash) ∙ clean_slash)

  -- path.Base gives the name back.
  pub base-below : (n : String) → IsName n → base (p <> ("/" <> n)) ≡ n
  base-below n h = ap base (in_text n) ∙ unfold below in base-cut p n dir.rest dir.rooted h
