-- ===== src/Text/Query.antt =====
-- url.QueryEscape and url.QueryUnescape of Go, over bytes.
use mathlib.Core.List.{◌++◌, flat_map}
use poddoctor.Prelude.{
  ℕ, Bool, true, false, ◌&&◌, ◌||◌, ◌+◌, ◌-◌, ◌*◌, ◌/◌, ◌%◌, ◌<◌, ◌⊎◌, inl, inr, Bool-cases, List,
  [], ◌∷◌, Option, none, some, ◌≡◌, refl, ap, ◌∙◌, arith, ltb, leb, nat_eq, All, All-append,
  if◌then◌else◌,
}

-- What stays as it is in a query.
abbrev pub unreserved : ℕ → Bool
unreserved c =
    (leb b'a' c && leb c b'z')
    || (leb b'A' c && leb c b'Z')
    || (leb b'0' c && leb c b'9')
    || nat_eq c b'-'
    || nat_eq c b'_'
    || nat_eq c b'.'
    || nat_eq c b'~'

-- The upper-case hexadecimal digit of a number below 16.
abbrev hex : ℕ → ℕ
hex d = if ltb d 10 then b'0' + d else b'A' + (d - 10)

unfoldable pub escape_byte : ℕ → List ℕ
escape_byte c =
    if nat_eq c b' '
    then b'+' ∷ []
    else if unreserved c
    then c ∷ []
    else b'%' ∷ hex (c / 16) ∷ hex (c % 16) ∷ []

unfoldable pub query_escape : List ℕ → List ℕ
unfolding flat_map
query_escape s = flat_map escape_byte s

-- The number of a hexadecimal digit.
abbrev unhex : ℕ → Option ℕ
unhex c =
    if leb b'0' c && leb c b'9'
    then some (c - b'0')
    else if leb b'a' c && leb c b'f'
    then some (c - b'a' + 10)
    else if leb b'A' c && leb c b'F'
    then some (c - b'A' + 10)
    else none

abbrev then_byte : Option ℕ → Option ℕ → Option (List ℕ) → Option (List ℕ)
then_byte (some a) (some b) (some s) = some ((a * 16 + b) ∷ s)
then_byte _ _ _ = none

abbrev then_cons : ℕ → Option (List ℕ) → Option (List ℕ)
then_cons c none = none
then_cons c (some s) = some (c ∷ s)

-- What a percent sign stands before is at least two bytes.
unfoldable pub query_unescape : List ℕ → Option (List ℕ)
query_unescape [] = some []
query_unescape (c ∷ []) =
    if nat_eq c b'%' then none else then_cons (if nat_eq c b'+' then b' ' else c) (some [])
query_unescape (c ∷ d ∷ []) =
    let rest = query_unescape (d ∷ []) in
    if nat_eq c b'%' then none else then_cons (if nat_eq c b'+' then b' ' else c) rest
query_unescape (c ∷ d ∷ e ∷ s) =
    let after = query_unescape s in
    let rest = query_unescape (d ∷ e ∷ s) in
    if nat_eq c b'%'
    then then_byte (unhex d) (unhex e) after
    else then_cons (if nat_eq c b'+' then b' ' else c) rest

unescape_plain :
    (c : ℕ) (s : List ℕ)
    → nat_eq c b'%' ≡ false
    → query_unescape (c ∷ s) ≡ then_cons (if nat_eq c b'+' then b' ' else c) (query_unescape s)
unfolding query_unescape
unescape_plain c [] h = rw h
unescape_plain c (d ∷ []) h = rw h
unescape_plain c (d ∷ e ∷ s) h = rw h

unhex-hex : (d : ℕ) → d < 16 → unhex (hex d) ≡ some d
unhex-hex d h = ground arith

unreserved_plain : (c : ℕ) → unreserved c ≡ true → (nat_eq c b'%' ≡ false) × (nat_eq c b'+' ≡ false)
unreserved_plain c h = ground arith

unescape_hex :
    (c : ℕ) (s : List ℕ)
    → c < 256
    → query_unescape (b'%' ∷ hex (c / 16) ∷ hex (c % 16) ∷ s) ≡ then_cons c (query_unescape s)
unfolding query_unescape
unescape_hex c s h =
    rw (unhex-hex (c / 16) (omega arith), unhex-hex (c % 16) (omega arith)) (go (query_unescape s))
  where
    go : (r : Option (List ℕ)) → then_byte (some (c / 16)) (some (c % 16)) r ≡ then_cons c r
    go none = refl
    go (some t) = ap (λ d. some (d ∷ t)) (omega arith)

unescape_byte :
    (c : ℕ) (s : List ℕ)
    → c < 256
    → query_unescape (escape_byte c ++ s) ≡ then_cons c (query_unescape s)
unfolding escape_byte
unescape_byte c s h = elim (Bool-cases (nat_eq c b' ')) [
  | inl e ↦ let same : c ≡ b' ' = ground arith in rw (e, same) (unescape_plain b'+' s refl)
  | inr e ↦ elim (Bool-cases (unreserved c)) [
    | inl u ↦
        let (p, q) = unreserved_plain c u in
        rw (e, u)
          (unescape_plain c s p ∙ ap (λ b. then_cons (if b then b' ' else c) (query_unescape s)) q)
    | inr u ↦ rw (e, u) (unescape_hex c s h)
  ]
]

abbrev pub IsByte : ℕ → Type 0
IsByte c = c < 256

-- Decoding an escaped text gives the text back.
pub query_unescape-query_escape :
    (s : List ℕ) → All IsByte s → query_unescape (query_escape s) ≡ some s
unfolding query_escape flat_map
query_unescape-query_escape [] h = unfold query_unescape in refl
query_unescape-query_escape (c ∷ s) (b, h) =
    unescape_byte c (query_escape s) b ∙ ap (then_cons c) (query_unescape-query_escape s h)

-- What an escaped text consists of: nothing that ends a parameter or a query.
abbrev pub IsSafe : ℕ → Type 0
IsSafe c = (unreserved c ≡ true) ⊎ ((c ≡ b'%') ⊎ (c ≡ b'+'))

hex-unreserved : (d : ℕ) → d < 16 → unreserved (hex d) ≡ true
hex-unreserved d h = ground arith

escape_byte-IsSafe : (c : ℕ) → IsByte c → All IsSafe (escape_byte c)
unfolding escape_byte
escape_byte-IsSafe c h = elim (Bool-cases (nat_eq c b' ')) [
  | inl e ↦ rw e (inr (inr refl), tt)
  | inr e ↦ elim (Bool-cases (unreserved c)) [
    | inl u ↦ rw (e, u) (inl u, tt)
    | inr u ↦
        rw (e, u)
          (
            inr (inl refl),
            (
              inl (hex-unreserved (c / 16) (omega arith)),
              (inl (hex-unreserved (c % 16) (omega arith)), tt),
            ),
          )
  ]
]

pub query_escape-IsSafe : (s : List ℕ) → All IsByte s → All IsSafe (query_escape s)
unfolding query_escape flat_map
query_escape-IsSafe [] h = tt
query_escape-IsSafe (c ∷ s) (b, h) =
    All-append IsSafe (escape_byte c) (query_escape s) (escape_byte-IsSafe c b)
      (query_escape-IsSafe s h)
