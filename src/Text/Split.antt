-- ===== src/Text/Split.antt =====
-- strings.Split by a character, and strings.TrimSpace.
use Prim.Native.Char.{Char, code}
use Prim.Native.String.{◌++◌}
use text.Mathlib.TextLemmas.{nil-append, cons-append}
use poddoctor.Prelude.{
  ℕ, String, Bool, true, false, not, ◌&&◌, ◌||◌, List, [], ◌∷◌, ◌≡◌, refl, ap, ◌∙◌, leb, nat_eq,
  nat_eq_iff, ◌==◌, arith, Bool-cases, inl, inr, if◌then◌else◌,
}

abbrev pub comma : String
comma = ","

-- The first piece becomes longer by a character.
abbrev pub longer : Char → List String → List String
longer c [] = String.◌∷◌ c "" ∷ []
longer c (piece ∷ rest) = String.◌∷◌ c piece ∷ rest

unfoldable pub split : ℕ → String → List String
split sep String.[] = "" ∷ []
split sep (String.◌∷◌ c s) =
    let rest = split sep s in if nat_eq (code c) sep then "" ∷ rest else longer c rest

-- unicode.IsSpace
unfoldable pub is_space : ℕ → Bool
is_space c =
    (leb 9 c && leb c 13)
    || nat_eq c 32
    || nat_eq c 0x85
    || nat_eq c 0xA0
    || nat_eq c 0x1680
    || (leb 0x2000 c && leb c 0x200A)
    || nat_eq c 0x2028
    || nat_eq c 0x2029
    || nat_eq c 0x202F
    || nat_eq c 0x205F
    || nat_eq c 0x3000

unfoldable pub trim_left : String → String
trim_left String.[] = ""
trim_left (String.◌∷◌ c s) = if is_space (code c) then trim_left s else String.◌∷◌ c s

unfoldable pub trim_right : String → String
trim_right String.[] = ""
trim_right (String.◌∷◌ c s) =
    let rest = trim_right s in if is_space (code c) && rest == "" then "" else String.◌∷◌ c rest

unfoldable pub trim_space : String → String
unfolding trim_left trim_right
trim_space s = trim_right (trim_left s)

-- Every character passes a test.
abbrev pub each : (ℕ → Bool) → String → Bool
each p String.[] = true
each p (String.◌∷◌ c s) = p (code c) && each p s

abbrev pub not_sep : ℕ → ℕ → Bool
not_sep sep c = not (nat_eq c sep)

abbrev pub not_space : ℕ → Bool
not_space c = not (is_space c)

module _ (sep : Char) where
  pub split-plain : (s : String) → each (not_sep (code sep)) s ≡ true → split (code sep) s ≡ s ∷ []
  unfolding split
  split-plain String.[] h = refl
  split-plain (String.◌∷◌ c s) h = elim (Bool-cases (nat_eq (code c) (code sep))) [
    | inl e ↦ absurd (ground arith)
    | inr e ↦ rw (e, split-plain s (ground arith)) refl
  ]

  pub split-append :
      (s t : String)
      → each (not_sep (code sep)) s ≡ true
      → split (code sep) (s ++ String.◌∷◌ sep t) ≡ s ∷ split (code sep) t
  unfolding split
  split-append String.[] t h =
      rw (nil-append, split, (nat_eq_iff (code sep) (code sep)).1 refl) refl
  split-append (String.◌∷◌ c s) t h = elim (Bool-cases (nat_eq (code c) (code sep))) [
    | inl e ↦ absurd (ground arith)
    | inr e ↦ rw (cons-append, split, e, split-append s t (ground arith)) refl
  ]

trim_left-append : (b s : String) → each is_space b ≡ true → trim_left (b ++ s) ≡ trim_left s
unfolding trim_left
trim_left-append String.[] s h = rw nil-append refl
trim_left-append (String.◌∷◌ c b) s h = elim (Bool-cases (is_space (code c))) [
  | inl e ↦ rw (cons-append, trim_left, e) (trim_left-append b s (ground arith))
  | inr e ↦ absurd (ground arith)
]

trim_left-plain :
    (c : Char) (n a : String)
    → is_space (code c) ≡ false
    → trim_left (String.◌∷◌ c n ++ a) ≡ String.◌∷◌ c n ++ a
unfolding trim_left
trim_left-plain c n a e = rw (cons-append, trim_left, e) refl

trim_right_space : (s : String) → each is_space s ≡ true → trim_right s ≡ ""
unfolding trim_right
trim_right_space String.[] h = refl
trim_right_space (String.◌∷◌ c s) h = elim (Bool-cases (is_space (code c))) [
  | inl e ↦ rw (trim_right_space s (ground arith), e) refl
  | inr e ↦ absurd (ground arith)
]

-- What `TrimSpace` keeps is a text without spaces.
trim_right-append :
    (n a : String) → each not_space n ≡ true → each is_space a ≡ true → trim_right (n ++ a) ≡ n
unfolding trim_right
trim_right-append String.[] a h k = rw nil-append (trim_right_space a k)
trim_right-append (String.◌∷◌ c n) a h k = elim (Bool-cases (is_space (code c))) [
  | inl e ↦ absurd (ground arith)
  | inr e ↦ rw (cons-append, trim_right, e, trim_right-append n a (ground arith) k) refl
]

pub trim_space_lem :
    (b n a : String)
    → each is_space b ≡ true
    → (n == "") ≡ false
    → each not_space n ≡ true
    → each is_space a ≡ true
    → trim_space (b ++ (n ++ a)) ≡ n
unfolding trim_space trim_left
trim_space_lem b String.[] a hb hn h ha = absurd (cc hn)
trim_space_lem b (String.◌∷◌ c n) a hb hn h ha = elim (Bool-cases (is_space (code c))) [
  | inl e ↦ absurd (ground arith)
  | inr e ↦
      ap trim_right (trim_left-append b (String.◌∷◌ c n ++ a) hb)
      ∙ ap trim_right (trim_left-plain c n a e)
      ∙ trim_right-append (String.◌∷◌ c n) a h ha
]
