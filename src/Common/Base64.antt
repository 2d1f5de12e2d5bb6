-- ===== src/Common/Base64.antt =====
-- `base64.RawURLEncoding`: three bytes are four digits; a rest of one or two bytes is two or three.
use Prim.Native.Char.{Char, code}
use text.Mathlib.TextEquality.{Char-path}
use forks_seaweedfs_csi_driv.Common.{
  ℕ, ◌+◌, ◌-◌, ◌*◌, ◌/◌, ◌%◌, ◌<◌, ◌≡◌, refl, sym, ap, ◌∙◌, String, List, [], ◌∷◌, ltb, leb, eqb,
  if◌then◌else◌, All, arith,
}
use forks_seaweedfs_csi_driv.Common.Text.{bytes}
use forks_seaweedfs_csi_driv.Common.Chars.{char_of, code-char_of}

digit_code : ℕ → ℕ
digit_code n =
    if ltb n 26
    then n + 65
    else if ltb n 52
    then n + 71
    else if ltb n 62
    then n - 4
    else if eqb n 62
    then b'-'
    else b'_'

digit : ℕ → Char
unfolding digit_code
digit n = char_of (digit_code n)

unfoldable pub encode : List ℕ → String
unfolding digit
encode [] = String.[]
encode (a ∷ []) = String.◌∷◌ (digit (a / 4)) (String.◌∷◌ (digit (a % 4 * 16)) String.[])
encode (a ∷ b ∷ []) =
    String.◌∷◌ (digit (a / 4))
      (String.◌∷◌ (digit (a % 4 * 16 + b / 16)) (String.◌∷◌ (digit (b % 16 * 4)) String.[]))
encode (a ∷ b ∷ c ∷ rest) = String.◌∷◌ (digit (a / 4)) (
    String.◌∷◌ (digit (a % 4 * 16 + b / 16))
      (String.◌∷◌ (digit (b % 16 * 4 + c / 64)) (String.◌∷◌ (digit (c % 64)) (encode rest))))

-- What a digit counts.
value : ℕ → ℕ
value c =
    if eqb c b'-'
    then 62
    else if eqb c b'_'
    then 63
    else if leb c b'9'
    then c + 4
    else if leb c b'Z'
    then c - 65
    else c - 71

digit_code-bounds : (n : ℕ) → digit_code n < 55296
unfolding digit_code
digit_code-bounds n = ground arith

value-digit_code : (n : ℕ) → n < 64 → value (digit_code n) ≡ n
unfolding value digit_code
value-digit_code n h = ground arith

value-digit : (n : ℕ) → n < 64 → value (code (digit n)) ≡ n
unfolding digit
value-digit n h = rw (code-char_of (digit_code n) (digit_code-bounds n)) (value-digit_code n h)

decode : String → List ℕ
unfolding value
decode String.[] = []
decode (String.◌∷◌ p String.[]) = []
decode (String.◌∷◌ p (String.◌∷◌ q String.[])) = (value (code p) * 4 + value (code q) / 16) ∷ []
decode (String.◌∷◌ p (String.◌∷◌ q (String.◌∷◌ r String.[]))) =
    (value (code p) * 4 + value (code q) / 16)
    ∷ (value (code q) % 16 * 16 + value (code r) / 4)
    ∷ []
decode (String.◌∷◌ p (String.◌∷◌ q (String.◌∷◌ r (String.◌∷◌ s rest)))) =
    (value (code p) * 4 + value (code q) / 16)
    ∷ (value (code q) % 16 * 16 + value (code r) / 4)
    ∷ (value (code r) % 4 * 64 + value (code s))
    ∷ decode rest

abbrev pub AreBytes : List ℕ → Type 0
AreBytes = All (λ b. b < 256)

first_byte :
    (a x : ℕ)
    → a < 256
    → x < 16
    → value (code (digit (a / 4))) * 4 + value (code (digit (a % 4 * 16 + x))) / 16 ≡ a
first_byte a x h k =
    omega (arith, value-digit (a / 4) (omega arith), value-digit (a % 4 * 16 + x) (omega arith))

second_byte :
    (a b x : ℕ)
    → b < 256
    → x < 4
    → value (code (digit (a % 4 * 16 + b / 16))) % 16 * 16
        + value (code (digit (b % 16 * 4 + x))) / 4
      ≡ b
second_byte a b x h k = omega (
  arith,
  value-digit (a % 4 * 16 + b / 16) (omega arith),
  value-digit (b % 16 * 4 + x) (omega arith),
)

third_byte :
    (b c : ℕ)
    → c < 256
    → value (code (digit (b % 16 * 4 + c / 64))) % 4 * 64 + value (code (digit (c % 64))) ≡ c
third_byte b c h =
    omega
      (arith, value-digit (b % 16 * 4 + c / 64) (omega arith), value-digit (c % 64) (omega arith))

add-zero : (n : ℕ) → n ≡ n + 0
add-zero n = omega arith

-- Decoding gives the bytes back.
decode-encode : (bs : List ℕ) → AreBytes bs → decode (encode bs) ≡ bs
unfolding decode encode
decode-encode [] h = refl
decode-encode (a ∷ []) (ha, h) = rw (add-zero (a % 4 * 16), first_byte a 0 ha (omega arith))
decode-encode (a ∷ b ∷ []) (ha, (hb, h)) = rw (
  first_byte a (b / 16) ha (omega arith),
  add-zero (b % 16 * 4),
  second_byte a b 0 hb (omega arith),
)
decode-encode (a ∷ b ∷ c ∷ rest) (ha, (hb, (hc, h))) = rw (
  first_byte a (b / 16) ha (omega arith),
  second_byte a b (c / 64) hb (omega arith),
  third_byte b c hc,
  decode-encode rest h,
)

encode-injective : (xs ys : List ℕ) → AreBytes xs → AreBytes ys → encode xs ≡ encode ys → xs ≡ ys
encode-injective xs ys hx hy e = sym (decode-encode xs hx) ∙ ap decode e ∙ decode-encode ys hy

bytes-injective : (s t : String) → bytes s ≡ bytes t → s ≡ t
bytes-injective String.[] String.[] e = refl
bytes-injective String.[] (String.◌∷◌ d t) e = cc
bytes-injective (String.◌∷◌ c s) String.[] e = cc
bytes-injective (String.◌∷◌ c s) (String.◌∷◌ d t) e =
    let same : c ≡ d = Char-path c d (ground arith) in
    let rest : s ≡ t = bytes-injective s t (ground arith) in cc (same, rest)

wide : (bs : List ℕ) → All (λ c. c < 128) bs → AreBytes bs
wide [] h = tt
wide (b ∷ bs) (h, hs) = (omega arith, wide bs hs)

-- A text of ASCII characters.
abbrev pub IsAscii : String → Type 0
IsAscii s = All (λ c. c < 128) (bytes s)

-- The encoding of an ASCII text tells the text.
pub encode-bytes-injective :
    (s t : String) → IsAscii s → IsAscii t → encode (bytes s) ≡ encode (bytes t) → s ≡ t
encode-bytes-injective s t hs ht e =
    bytes-injective s t
      (encode-injective (bytes s) (bytes t) (wide (bytes s) hs) (wide (bytes t) ht) e)
