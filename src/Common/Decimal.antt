-- ===== src/Common/Decimal.antt =====
-- Decimal text: `strconv.Itoa`, `strconv.FormatInt` and `strconv.ParseInt` in base 10.
use Prim.Native.Nat.{ℕ, zero, suc, ◌+◌, ◌-◌, ◌*◌, ◌/◌, ◌%◌, ◌^◌, ◌≤◌, ◌<◌}
use Prim.Native.Char.{Char, code}
use Prim.Native.String.{String, [], ◌∷◌}
use mathlib.Core.Path.{◌≡◌, refl, ap, ◌∙◌}
use mathlib.Core.Logic.{inl, inr}
use mathlib.Core.Bool.{◌&&◌}
use mathlib.Core.Option.{Option, none, some}
use native.Mathlib.Omega.{arith}
use forks_seaweedfs_csi_driv.Common.Tests.{ltb, leb, eqb, if◌then◌else◌, Bool-cases}

-- `negsuc n` is -(n + 1).
pub data ℤ : Type 0 where
  pos : ℕ → ℤ
  negsuc : ℕ → ℤ

abbrev pub int64_max : ℕ
int64_max = 2 ^ 63 - 1

-- The values of an `int64`.
abbrev pub IsInt64 : ℤ → Type 0
IsInt64 (pos n) = n ≤ int64_max
IsInt64 (negsuc n) = n ≤ int64_max

digit : ℕ → Char
digit zero = "0"
digit (suc zero) = "1"
digit (suc (suc zero)) = "2"
digit (suc (suc (suc zero))) = "3"
digit (suc (suc (suc (suc zero)))) = "4"
digit (suc (suc (suc (suc (suc zero))))) = "5"
digit (suc (suc (suc (suc (suc (suc zero)))))) = "6"
digit (suc (suc (suc (suc (suc (suc (suc zero))))))) = "7"
digit (suc (suc (suc (suc (suc (suc (suc (suc zero)))))))) = "8"
digit _ = "9"

-- The digits of `n` in front of `rest`; the fuel exceeds `n`.
format_onto : ℕ → ℕ → String → String
unfolding digit
format_onto zero n rest = rest
format_onto (suc f) n rest =
    let more = format_onto f (n / 10) (digit (n % 10) ∷ rest) in
    if ltb n 10 then digit n ∷ rest else more

unfoldable pub format_nat : ℕ → String
unfolding format_onto
format_nat n = format_onto (suc n) n []

unfoldable pub format_int : ℤ → String
unfolding format_nat
format_int (pos n) = format_nat n
format_int (negsuc n) = "-" ∷ format_nat (suc n)

parse_onto : ℕ → String → Option ℕ
parse_onto n [] = some n
parse_onto n (c ∷ rest) =
    let d = code c in if leb 48 d && leb d 57 then parse_onto (n * 10 + (d - 48)) rest else none

parse_nat : String → Option ℕ
unfolding parse_onto
parse_nat [] = none
parse_nat (c ∷ rest) = parse_onto 0 (c ∷ rest)

-- `strconv.ParseInt(s, 10, 64)`, also `strconv.Atoi` where an `int` has 64 bits; `none` is its
-- error: a text that is no number, or a number out of range.
positive : Option ℕ → Option ℤ
positive none = none
positive (some n) = if leb n int64_max then some (pos n) else none

negative : Option ℕ → Option ℤ
negative none = none
negative (some n) =
    if eqb n 0 then some (pos 0) else if leb (n - 1) int64_max then some (negsuc (n - 1)) else none

unfoldable pub parse_int : String → Option ℤ
unfolding positive negative parse_nat
parse_int [] = none
parse_int (c ∷ rest) =
    if eqb (code c) b'-'
    then negative (parse_nat rest)
    else if eqb (code c) b'+'
    then positive (parse_nat rest)
    else positive (parse_nat (c ∷ rest))

code-digit : (d : ℕ) → d < 10 → code (digit d) ≡ 48 + d
unfolding digit
code-digit zero h = refl
code-digit (suc zero) h = refl
code-digit (suc (suc zero)) h = refl
code-digit (suc (suc (suc zero))) h = refl
code-digit (suc (suc (suc (suc zero)))) h = refl
code-digit (suc (suc (suc (suc (suc zero))))) h = refl
code-digit (suc (suc (suc (suc (suc (suc zero)))))) h = refl
code-digit (suc (suc (suc (suc (suc (suc (suc zero))))))) h = refl
code-digit (suc (suc (suc (suc (suc (suc (suc (suc zero)))))))) h = refl
code-digit (suc (suc (suc (suc (suc (suc (suc (suc (suc zero))))))))) h = refl
code-digit (suc (suc (suc (suc (suc (suc (suc (suc (suc (suc d)))))))))) h = absurd (omega arith)

-- A digit in front is one more step of the parser.
parse-digit :
    (n d : ℕ) (rest : String)
    → d < 10
    → parse_onto n (digit d ∷ rest) ≡ parse_onto (n * 10 + d) rest
unfolding parse_onto
parse-digit n d rest h = ground (arith, code-digit d h)

parse-format_onto :
    (f n : ℕ) (rest : String) → n < f → parse_onto 0 (format_onto f n rest) ≡ parse_onto n rest
unfolding format_onto
parse-format_onto zero n rest h = elim h [ ]
parse-format_onto (suc f) n rest h = elim (Bool-cases (ltb n 10)) [
  | inl small ↦
      rw small (parse-digit 0 n rest (ground arith) ∙ ap (λ k. parse_onto k rest) (omega arith))
  | inr large ↦ rw large (
      parse-format_onto f (n / 10) (digit (n % 10) ∷ rest) (ground arith)
      ∙ parse-digit (n / 10) (n % 10) rest (omega arith)
      ∙ ap (λ k. parse_onto k rest) (omega arith))
]

-- The text of a number begins with a digit.
format_onto-cons :
    (f n : ℕ) (rest : String)
    → n < f
    → (d : ℕ) × (s : String) × (d < 10) × (format_onto f n rest ≡ digit d ∷ s)
unfolding format_onto
format_onto-cons zero n rest h = elim h [ ]
format_onto-cons (suc f) n rest h = elim (Bool-cases (ltb n 10)) [
  | inl small ↦ (n, rest, ground arith, rw small)
  | inr large ↦ rw large (format_onto-cons f (n / 10) (digit (n % 10) ∷ rest) (ground arith))
]

parse_nat-format_nat : (n : ℕ) → parse_nat (format_nat n) ≡ some n
unfolding parse_nat format_nat
parse_nat-format_nat n =
    let (d, s, small, e) = format_onto-cons (suc n) n [] (omega arith) in
    let whole : parse_onto 0 (format_onto (suc n) n []) ≡ some n =
      parse-format_onto (suc n) n [] (omega arith) in
    rw e (rw e at whole)

-- What is printed reads back.
pub parse_int-format_int : (z : ℤ) → IsInt64 z → parse_int (format_int z) ≡ some z
unfolding parse_int format_int negative
parse_int-format_int (pos n) h =
    let (d, s, small, e) = format_onto-cons (suc n) n [] (omega arith) in
    let whole : parse_nat (format_nat n) ≡ some n = parse_nat-format_nat n in
    rw e (ground (arith, code-digit d small, rw e at whole))
parse_int-format_int (negsuc n) h =
    let shut : negative (parse_nat (format_nat (suc n))) ≡ some (negsuc n) =
      rw (parse_nat-format_nat (suc n)) (ground arith) in
    shut
