-- ===== src/Prelude/Lists.antt =====
-- Lists measured by native numbers, predicates over lists, and searches in lists of numbers.
use Prim.Native.Nat.{ℕ, zero, suc, ◌-◌, min}
use mathlib.Core.Path.{◌≡◌, refl, ap}
use mathlib.Core.Logic.{◌↔◌, ◌⊎◌, inl, inr}
use mathlib.Core.Bool.{Bool, true, false, ◌&&◌, ◌||◌}
use mathlib.Core.List.{List, [], ◌∷◌, ◌++◌}
use native.Mathlib.Omega.{arith}
use poddoctor.Prelude.Tests.{nat_eq, Bool-cases, if◌then◌else◌}

module _ {ℓ} {A : Type ℓ} where
  abbrev pub length : List A → ℕ
  length [] = 0
  length (x ∷ xs) = suc (length xs)

  abbrev pub take : ℕ → List A → List A
  take zero xs = []
  take (suc n) [] = []
  take (suc n) (x ∷ xs) = x ∷ take n xs

  abbrev pub drop : ℕ → List A → List A
  drop zero xs = xs
  drop (suc n) [] = []
  drop (suc n) (x ∷ xs) = drop n xs

  abbrev pub is_empty : List A → Bool
  is_empty [] = true
  is_empty (_ ∷ _) = false

  abbrev pub any : (A → Bool) → List A → Bool
  any p [] = false
  any p (x ∷ xs) = p x || any p xs

  pub length-take : (n : ℕ) (xs : List A) → length (take n xs) ≡ min n (length xs)
  length-take zero xs = omega arith
  length-take (suc n) [] = omega arith
  length-take (suc n) (x ∷ xs) = omega (arith, length-take n xs)

  pub length-drop : (n : ℕ) (xs : List A) → length (drop n xs) ≡ length xs - n
  length-drop zero xs = omega arith
  length-drop (suc n) [] = omega arith
  length-drop (suc n) (x ∷ xs) = omega (arith, length-drop n xs)

  pub take-append-drop : (n : ℕ) (xs : List A) → take n xs ++ drop n xs ≡ xs
  take-append-drop zero xs = refl
  take-append-drop (suc n) [] = refl
  take-append-drop (suc n) (x ∷ xs) = ap (λ ys. x ∷ ys) (take-append-drop n xs)

module _ {ℓ} {A : Type ℓ} where
  -- Every element has the property, and some element has it.
  abbrev pub All : (A → Type 0) → List A → Type 0
  All P [] = Unit
  All P (x ∷ xs) = P x × All P xs

  abbrev pub Any : (A → Type 0) → List A → Type 0
  Any P [] = ⊥
  Any P (x ∷ xs) = P x ⊎ Any P xs

  pub All-append : (P : A → Type 0) (xs ys : List A) → All P xs → All P ys → All P (xs ++ ys)
  All-append P [] ys h k = k
  All-append P (x ∷ xs) ys (p, h) k = (p, All-append P xs ys h k)

  pub All-if :
      (P : A → Type 0) (b : Bool) (xs ys : List A)
      → All P xs
      → All P ys
      → All P (if b then xs else ys)
  All-if P true xs ys h k = h
  All-if P false xs ys h k = k

  pub All-drop : (P : A → Type 0) (n : ℕ) (xs : List A) → All P xs → All P (drop n xs)
  All-drop P zero xs h = h
  All-drop P (suc n) [] h = tt
  All-drop P (suc n) (x ∷ xs) h = All-drop P n xs h.1

  pub All-mono : (P Q : A → Type 0) → ((a : A) → P a → Q a) → (xs : List A) → All P xs → All Q xs
  All-mono P Q f [] h = tt
  All-mono P Q f (x ∷ xs) (p, h) = (f x p, All-mono P Q f xs h)

  pub any_iff :
      (p : A → Bool) (P : A → Type 0)
      → ((a : A) → (p a ≡ true) ↔ P a)
      → (xs : List A) → (any p xs ≡ true) ↔ Any P xs
  any_iff p P h [] = ground arith
  any_iff p P h (x ∷ xs) = ground (arith, h x, any_iff p P h xs)

-- `t` stands at the front of `s`.
abbrev pub is_prefix : List ℕ → List ℕ → Bool
is_prefix [] s = true
is_prefix (c ∷ t) [] = false
is_prefix (c ∷ t) (d ∷ s) = nat_eq c d && is_prefix t s

-- strings.Contains, over the bytes of both texts.
unfoldable pub contains : List ℕ → List ℕ → Bool
contains [] t = is_prefix t []
contains (c ∷ s) t = is_prefix t (c ∷ s) || contains s t

-- `t` stands somewhere in `s`.
abbrev pub IsInfix {ℓ} : {A : Type ℓ} → List A → List A → Type ℓ
IsInfix {A = A} t s = (before : List A) × (after : List A) × (s ≡ before ++ (t ++ after))

is_prefix_sound : (t s : List ℕ) → is_prefix t s ≡ true → (after : List ℕ) × (s ≡ t ++ after)
is_prefix_sound [] s h = (s, refl)
is_prefix_sound (c ∷ t) [] h = cc
is_prefix_sound (c ∷ t) (d ∷ s) h =
    let (after, e) = is_prefix_sound t s (ground arith) in (after, ground arith)

is_prefix_complete : (t after : List ℕ) → is_prefix t (t ++ after) ≡ true
is_prefix_complete [] after = refl
is_prefix_complete (c ∷ t) after = ground (arith, is_prefix_complete t after)

contains_sound : (s t : List ℕ) → contains s t ≡ true → IsInfix t s
unfolding contains
contains_sound [] t h = let (after, e) = is_prefix_sound t [] h in ([], after, e)
contains_sound (c ∷ s) t h = elim (Bool-cases (is_prefix t (c ∷ s))) [
  | inl here ↦ let (after, e) = is_prefix_sound t (c ∷ s) here in ([], after, e)
  | inr not_here ↦
      let (before, after, e) = contains_sound s t (ground arith) in
      (c ∷ before, after, ap (λ r. c ∷ r) e)
]

contains_here : (t after : List ℕ) → contains (t ++ after) t ≡ true
unfolding contains
contains_here [] [] = refl
contains_here [] (c ∷ after) = refl
contains_here (c ∷ t) after = ground (arith, is_prefix_complete (c ∷ t) after)

contains_complete : (before t after : List ℕ) → contains (before ++ (t ++ after)) t ≡ true
unfolding contains
contains_complete [] t after = contains_here t after
contains_complete (c ∷ before) t after = ground (arith, contains_complete before t after)

-- The search finds exactly the infixes.
pub contains_iff : (s t : List ℕ) → (contains s t ≡ true) ↔ IsInfix t s
contains_iff s t =
    (contains_sound s t, λ (before, after, e). rw e (contains_complete before t after))
