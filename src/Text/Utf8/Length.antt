-- ===== src/Text/Utf8/Length.antt =====
-- How long a JSON string may become when its bytes are made valid UTF-8.
use Prim.Native.Char.{char, code}
use mathlib.Core.List.{◌++◌ as append}
use native.Mathlib.Decide.{dec_lt}
use poddoctor.Prelude.{
  ℕ, zero, suc, ◌+◌, ◌*◌, ◌<◌, ◌≤◌, List, [], ◌∷◌, ◌≡◌, refl, arith, length, ltb, Bool-cases, ◌⊎◌,
  inl, inr,
}
use poddoctor.Text.{bytes, encode}
use poddoctor.Text.Utf8.{
  replacement, IsScalar-low, IsScalar-high, code-to_char, to_char, decode_rune, coerce_from, coerce,
}

length-append : (xs ys : List ℕ) → length (append xs ys) ≡ length xs + length ys
length-append [] ys = omega arith
length-append (x ∷ xs) ys = let h = length-append xs ys in omega arith

abbrev width : ℕ → ℕ
width n = length (encode (code (to_char n)))

width_le : (n : ℕ) → width n ≤ 4
width_le n = ground arith

encode_small : (n : ℕ) → n < 65536 → length (encode n) ≤ 3
encode_small n h = ground arith

-- No character for a surrogate.
code-to_char_gap : (n : ℕ) → 55296 ≤ n → n ≤ 57343 → code (to_char n) ≡ 65533
unfolding to_char
code-to_char_gap n h k =
    elim (dec_lt n 55296)
      as (λ d.
        code (elim d [
          | yes l ↦ char n (IsScalar-low n l)
          | no _ ↦ elim (dec_lt 57343 n) [
            | yes l ↦ elim (dec_lt n 1114112) [
              | yes m ↦ char n (IsScalar-high n l m)
              | no _ ↦ replacement
            ]
            | no _ ↦ replacement
          ]
        ])
        ≡ 65533) [
          | yes l ↦ absurd (omega arith)
          | no _ ↦
              elim (dec_lt 57343 n)
                as (λ d.
                  code (elim d [
                    | yes l ↦ elim (dec_lt n 1114112) [
                      | yes m ↦ char n (IsScalar-high n l m)
                      | no _ ↦ replacement
                    ]
                    | no _ ↦ replacement
                  ])
                  ≡ 65533) [ yes l ↦ absurd (omega arith) | no _ ↦ refl ]
        ]

code_small : (n : ℕ) → n < 65536 → code (to_char n) < 65536
code_small n h = elim (Bool-cases (ltb n 55296)) [
  | inl a ↦ let e = code-to_char n (IsScalar-low n (ground arith)) in omega arith
  | inr a ↦ elim (Bool-cases (ltb 57343 n)) [
    | inl b ↦ let e = code-to_char n (IsScalar-high n (ground arith) (omega arith)) in omega arith
    | inr b ↦ let e = code-to_char_gap n (ground arith) (ground arith) in omega arith
  ]
]

width_small : (n : ℕ) → n < 65536 → width n ≤ 3
width_small n h = encode_small (code (to_char n)) (code_small n h)

-- A rune of four bytes has bytes behind its first.
decoded :
    (a : ℕ) (s : List ℕ)
    → ((decode_rune a s).number < 65536) ⊎ ((1 ≤ (decode_rune a s).more) × (1 ≤ length s))
unfolding decode_rune
decoded a [] = ground arith
decoded a (b ∷ []) = ground arith
decoded a (b ∷ c ∷ []) = ground arith
decoded a (b ∷ c ∷ d ∷ s) = ground arith

-- The bytes to skip that there are.
abbrev skipped : ℕ → List ℕ → ℕ
skipped skip [] = 0
skipped zero (a ∷ s) = 0
skipped (suc skip) (a ∷ s) = suc (skipped skip s)

skipped_pos : (skip : ℕ) (s : List ℕ) → 1 ≤ skip → 1 ≤ length s → 1 ≤ skipped skip s
skipped_pos zero s h k = absurd (omega arith)
skipped_pos (suc skip) [] h k = absurd (omega arith)
skipped_pos (suc skip) (a ∷ s) h k = omega arith

length-coerce_from :
    (skip : ℕ) (s : List ℕ)
    → length (bytes (coerce_from skip s)) + 3 * skipped skip s ≤ 3 * length s
unfolding bytes coerce_from
length-coerce_from skip [] = omega arith
length-coerce_from (suc skip) (a ∷ s) = let h = length-coerce_from skip s in omega arith
length-coerce_from zero (a ∷ s) =
    let r = decode_rune a s in
    let h = length-coerce_from r.more s in
    let e = length-append (encode (code (to_char r.number))) (bytes (coerce_from r.more s)) in
    elim (decoded a s) [
      | inl k ↦ let w = width_small r.number k in omega arith
      | inr (k, l) ↦ let w = width_le r.number in let p = skipped_pos r.more s k l in omega arith
    ]

-- The valid text of some bytes has at most three times as many.
pub length-coerce : (s : List ℕ) → length (bytes (coerce s)) ≤ 3 * length s
unfolding coerce
length-coerce s = let h = length-coerce_from 0 s in omega arith
