-- ===== src/Common/Chars.antt =====
-- Characters by their number.
use Prim.Native.Nat.{ℕ, ◌<◌, compare, Ordering}
use Prim.Native.Char.{Char, char, code}
use mathlib.Core.Path.{◌≡◌, refl}
use native.Mathlib.Omega.{arith}

below_surrogates : (n : ℕ) (o : Ordering) → compare n 55296 ≡ o → Char
below_surrogates n Ordering.lt e = char n (rw e tt)
below_surrogates n _ e = char 0 tt

-- The character of a number below the surrogates.
unfoldable pub char_of : ℕ → Char
unfolding below_surrogates
char_of n = below_surrogates n (compare n 55296) refl

below_lem :
    (n : ℕ) (o : Ordering) (e : compare n 55296 ≡ o) → n < 55296 → code (below_surrogates n o e) ≡ n
unfolding below_surrogates
below_lem n Ordering.lt e h = refl
below_lem n Ordering.eq e h = ground arith
below_lem n Ordering.gt e h = ground arith

pub code-char_of : (n : ℕ) → n < 55296 → code (char_of n) ≡ n
unfolding char_of
code-char_of n h = below_lem n (compare n 55296) refl h
