-- ===== src/Text/Decimal.antt =====
-- The decimals of a number are read as that number: the fuel of `decimal` is enough.
use Prim.Native.String.{◌++◌}
use text.Mathlib.TextLemmas.{nil-append, cons-append}
use poddoctor.Prelude.{
  ℕ, zero, suc, ◌+◌, ◌*◌, ◌-◌, ◌/◌, ◌%◌, ◌^◌, ◌<◌, String, true, false, ◌&&◌, some, List, ◌∷◌, ◌≡◌,
  refl, ap, sym, ◌∙◌, pos, ltb, leb, nat_eq, arith, Bool-cases, inl, inr,
}
use poddoctor.Text.{bytes, digit, digits_from, decimal}
use poddoctor.Text.Number.{parse_uint, parse_magnitude, atoi}

digit-bytes : (d : ℕ) (rest : String) → d < 10 → bytes (digit d ++ rest) ≡ (48 + d) ∷ bytes rest
unfolding bytes
digit-bytes zero rest h = rw (cons-append, nil-append) refl
digit-bytes (suc zero) rest h = rw (cons-append, nil-append) refl
digit-bytes (suc (suc zero)) rest h = rw (cons-append, nil-append) refl
digit-bytes (suc (suc (suc zero))) rest h = rw (cons-append, nil-append) refl
digit-bytes (suc (suc (suc (suc zero)))) rest h = rw (cons-append, nil-append) refl
digit-bytes (suc (suc (suc (suc (suc zero))))) rest h = rw (cons-append, nil-append) refl
digit-bytes (suc (suc (suc (suc (suc (suc zero)))))) rest h = rw (cons-append, nil-append) refl
digit-bytes (suc (suc (suc (suc (suc (suc (suc zero))))))) rest h =
    rw (cons-append, nil-append) refl
digit-bytes (suc (suc (suc (suc (suc (suc (suc (suc zero)))))))) rest h =
    rw (cons-append, nil-append) refl
digit-bytes (suc (suc (suc (suc (suc (suc (suc (suc (suc zero))))))))) rest h =
    rw (cons-append, nil-append) refl
digit-bytes (suc (suc (suc (suc (suc (suc (suc (suc (suc (suc d)))))))))) rest h =
    absurd (omega arith)

-- One digit read.
parse_step :
    (m d : ℕ) (s : List ℕ)
    → d < 10
    → m * 10 + d < 2 ^ 64
    → parse_uint m ((48 + d) ∷ s) ≡ parse_uint (m * 10 + d) s
unfolding parse_uint
parse_step m d s h k =
    let value : m * 10 + (48 + d - 48) ≡ m * 10 + d = omega arith in
    let shown : (leb 48 (48 + d) && leb (48 + d) 57) ≡ true = ground arith in
    let small : ltb (2 ^ 64 - 1) (m * 10 + d) ≡ false = ground arith in
    rw (shown, value, small) refl

parse_digit :
    (m d n : ℕ) (rest : String)
    → d < 10
    → m * 10 + d ≡ n
    → n < 2 ^ 64
    → parse_uint m (bytes (digit d ++ rest)) ≡ parse_uint n (bytes rest)
parse_digit m d n rest h e k =
    ap (parse_uint m) (digit-bytes d rest h)
    ∙ parse_step m d (bytes rest) h (rw e k)
    ∙ ap (λ x. parse_uint x (bytes rest)) e

digits_read :
    (fuel n : ℕ) (rest : String)
    → n < fuel
    → n < 2 ^ 64
    → parse_uint 0 (bytes (digits_from fuel n rest)) ≡ parse_uint n (bytes rest)
unfolding digits_from
digits_read zero n rest h k = absurd (omega arith)
digits_read (suc fuel) n rest h k = elim (Bool-cases (ltb n 10)) [
  | inl e ↦ rw e (parse_digit 0 n n rest (ground arith) (omega arith) k)
  | inr e ↦ rw e (
      digits_read fuel (n / 10) (digit (n % 10) ++ rest) (ground arith) (ground arith)
      ∙ parse_digit (n / 10) (n % 10) n rest (omega arith) (omega arith) k)
]

-- The text of a number begins with a digit.
abbrev BeginsWithDigit : List ℕ → Type 0
BeginsWithDigit s = (d : ℕ) × (rest : List ℕ) × (s ≡ (48 + d) ∷ rest) × (d < 10)

digits_begin :
    (fuel n : ℕ) (rest : String) → n < fuel → BeginsWithDigit (bytes (digits_from fuel n rest))
unfolding digits_from
digits_begin zero n rest h = absurd (omega arith)
digits_begin (suc fuel) n rest h = elim (Bool-cases (ltb n 10)) [
  | inl e ↦ rw e (n, bytes rest, digit-bytes n rest (ground arith), ground arith)
  | inr e ↦ rw e (digits_begin fuel (n / 10) (digit (n % 10) ++ rest) (ground arith))
]

atoi_digits :
    (d : ℕ) (rest : List ℕ) (n : ℕ)
    → d < 10
    → parse_uint 0 ((48 + d) ∷ rest) ≡ some n
    → n < 2 ^ 63
    → atoi ((48 + d) ∷ rest) ≡ pos n
unfolding atoi parse_magnitude
atoi_digits d rest n k e h =
    let no_minus : nat_eq (48 + d) 45 ≡ false = ground arith in
    let no_plus : nat_eq (48 + d) 43 ≡ false = ground arith in
    let small : leb (2 ^ 63) n ≡ false = ground arith in
    rw (no_minus, no_plus, parse_magnitude, e, small) refl

-- A number that 64 bits hold with its sign is read back from its decimals.
pub atoi-decimal : (n : ℕ) → n < 2 ^ 63 → atoi (bytes (decimal (pos n))) ≡ pos n
unfolding decimal parse_uint bytes
atoi-decimal n h =
    let (d, rest, e, k) = digits_begin (suc n) n "" (omega arith) in
    let read : parse_uint 0 ((48 + d) ∷ rest) ≡ some n =
      ap (parse_uint 0) (sym e) ∙ digits_read (suc n) n "" (omega arith) (omega arith) in
    ap atoi e ∙ atoi_digits d rest n k read h
