-- ===== src/Text/Utf8.antt =====
-- What Go makes of bytes where it writes a string as JSON: valid UTF-8 stays, and each byte that begins no
-- rune becomes U+FFFD (unicode/utf8).
pub mod Length
use Prim.Native.Char.{Char, char, code, IsScalar}
use mathlib.Core.List.{◌++◌ as append}
use native.Mathlib.Decide.{dec_lt}
use text.Mathlib.TextEquality.{Char-path}
use poddoctor.Prelude.{
  ℕ, zero, suc, String, Bool, ◌&&◌, ◌+◌, ◌-◌, ◌*◌, ◌/◌, ◌%◌, ◌<◌, ◌≤◌, List, [], ◌∷◌, ◌≡◌, ◌≢◌,
  refl, Bool-cases, inl, inr, ap, ◌∙◌, arith, ltb, leb, nat_eq, if◌then◌else◌,
}
use poddoctor.Text.{bytes, encode}

pub IsScalar-low : (n : ℕ) → n < 55296 → IsScalar n
IsScalar-low n h = ground arith

pub IsScalar-high : (n : ℕ) → 57343 < n → n < 1114112 → IsScalar n
IsScalar-high n h k = ground arith

-- U+FFFD
abbrev pub replacement : Char
replacement = char 65533 tt

-- The character of a number, or the replacement.
unfoldable pub to_char : ℕ → Char
unfolding dec_lt
to_char n = elim (dec_lt n 55296) [
  | yes h ↦ char n (IsScalar-low n h)
  | no _ ↦ elim (dec_lt 57343 n) [
    | yes h ↦ elim (dec_lt n 1114112) [ yes k ↦ char n (IsScalar-high n h k) | no _ ↦ replacement ]
    | no _ ↦ replacement
  ]
]

-- The rune that bytes begin with, and how many bytes it has behind the first.
pub record Rune : Type 0 where
  pub number : ℕ
  pub more : ℕ

abbrev invalid : Rune
invalid = record { number = 65533; more = 0 }

abbrev continues : ℕ → Bool
continues b = leb 128 b && leb b 191

abbrev rune_2 : ℕ → List ℕ → Rune
rune_2 a [] = invalid
rune_2 a (b ∷ _) =
    if continues b then record { number = (a - 192) * 64 + (b - 128); more = 1 } else invalid

-- The second byte of three excludes long forms and surrogates, that of four what is above U+10FFFF.
abbrev rune_3 : ℕ → List ℕ → Rune
rune_3 a [] = invalid
rune_3 a (_ ∷ []) = invalid
rune_3 a (b ∷ c ∷ _) =
    if leb (if nat_eq a 224 then 160 else 128) b
      && leb b (if nat_eq a 237 then 159 else 191)
      && continues c
    then record { number = (a - 224) * 4096 + (b - 128) * 64 + (c - 128); more = 2 }
    else invalid

abbrev rune_4 : ℕ → List ℕ → Rune
rune_4 a [] = invalid
rune_4 a (_ ∷ []) = invalid
rune_4 a (_ ∷ _ ∷ []) = invalid
rune_4 a (b ∷ c ∷ d ∷ _) =
    if leb (if nat_eq a 240 then 144 else 128) b
      && leb b (if nat_eq a 244 then 143 else 191)
      && continues c
      && continues d
    then record {
      number = (a - 240) * 262144 + (b - 128) * 4096 + (c - 128) * 64 + (d - 128);
      more = 3;
    }
    else invalid

-- utf8.DecodeRune
unfoldable pub decode_rune : ℕ → List ℕ → Rune
decode_rune a s =
    if ltb a 128
    then record { number = a; more = 0 }
    else if ltb a 194
    then invalid
    else if ltb a 224
    then rune_2 a s
    else if ltb a 240
    then rune_3 a s
    else if ltb a 245
    then rune_4 a s
    else invalid

-- The text from behind the next `skip` bytes.
unfoldable pub coerce_from : ℕ → List ℕ → String
coerce_from skip [] = ""
coerce_from (suc skip) (a ∷ s) = coerce_from skip s
coerce_from zero (a ∷ s) =
    String.◌∷◌ (to_char (decode_rune a s).number) (coerce_from (decode_rune a s).more s)

unfoldable pub coerce : List ℕ → String
unfolding coerce_from
coerce s = coerce_from 0 s

pub code-to_char : (n : ℕ) → IsScalar n → code (to_char n) ≡ n
unfolding to_char
code-to_char n h = ground arith

to_char-code : (c : Char) → to_char (code c) ≡ c
to_char-code (char n h) = Char-path (to_char n) (char n h) (code-to_char n h)

module _ (n : ℕ) (rest : List ℕ) where
  decode_1 : n < 128 → decode_rune n rest ≡ record { number = n; more = 0 }
  unfolding decode_rune
  decode_1 h = ground arith

  decode_2 :
      128 ≤ n
      → n < 2048
      → decode_rune (192 + n / 64) ((128 + n % 64) ∷ rest) ≡ record { number = n; more = 1 }
  unfolding decode_rune
  decode_2 l h = ground arith

  decode_3 :
      2048 ≤ n
      → n < 65536
      → IsScalar n
      → decode_rune (224 + n / 4096) ((128 + n / 64 % 64) ∷ (128 + n % 64) ∷ rest)
        ≡ record { number = n; more = 2 }
  unfolding decode_rune
  decode_3 l h v = ground arith

  decode_4 :
      65536 ≤ n
      → IsScalar n
      → decode_rune
          (240 + n / 262144)
          ((128 + n / 4096 % 64) ∷ (128 + n / 64 % 64) ∷ (128 + n % 64) ∷ rest)
        ≡ record { number = n; more = 3 }
  unfolding decode_rune
  decode_4 l v = ground arith

encode_ne : (n : ℕ) (rest : List ℕ) → append (encode n) rest ≢ []
encode_ne n rest e = ground arith

coerce_encode :
    (n : ℕ) (rest : List ℕ)
    → IsScalar n
    → coerce_from 0 (append (encode n) rest) ≡ String.◌∷◌ (to_char n) (coerce_from 0 rest)
unfolding coerce_from
coerce_encode n rest h = elim (Bool-cases (ltb n 128)) [
  | inl a ↦ rw (a, decode_1 n rest (ground arith))
  | inr a ↦ elim (Bool-cases (ltb n 2048)) [
    | inl b ↦ rw (a, b, decode_2 n rest (ground arith) (ground arith))
    | inr b ↦ elim (Bool-cases (ltb n 65536)) [
      | inl c ↦ rw (a, b, c, decode_3 n rest (ground arith) (ground arith) h)
      | inr c ↦ rw (a, b, c, decode_4 n rest (ground arith) h)
    ]
  ]
]

-- Valid text stays as it is.
pub coerce-bytes : (s : String) → coerce (bytes s) ≡ s
unfolding coerce bytes
coerce-bytes String.[] = unfold coerce_from in refl
coerce-bytes (String.◌∷◌ (char n h) s) =
    coerce_encode n (bytes s) h
    ∙ ap (λ c. String.◌∷◌ c (coerce_from 0 (bytes s))) (to_char-code (char n h))
    ∙ ap (String.◌∷◌ (char n h)) (coerce-bytes s)

-- Only nothing becomes nothing.
pub coerce_empty : (log : List ℕ) → bytes (coerce log) ≡ [] → log ≡ []
unfolding coerce bytes coerce_from
coerce_empty [] e = refl
coerce_empty (a ∷ log) e = absurd (encode_ne (code (to_char (decode_rune a log).number)) _ e)
