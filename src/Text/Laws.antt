-- ===== src/Text/Laws.antt =====
-- Laws of texts that contain texts, and tests of the text functions.
use Prim.Native.String.{◌++◌}
use text.Mathlib.TextLemmas.{nil-append, append-nil, append_assoc}
use text.Mathlib.TextLemmas.{append-eq-nil_iff}
use poddoctor.Prelude.{
  arith, false, ◌==◌, eq_iff, String, List, [], ◌∷◌, ◌≡◌, ◌≢◌, refl, pos, negsuc, All, All-mono,
  All-append, ℕ, ◌<◌,
}
use Prim.Native.Char.{Char, char, code}
use poddoctor.Text.Query.{IsByte}
use poddoctor.Text.{encode, bytes, to_lower, decimal, join, Holds}

-- A failed test on texts.
pub ne_of_test : (s t : String) → (s == t) ≡ false → s ≢ t
ne_of_test s t h e = cc ((eq_iff s t).1 e)

pub test_of_ne : (s t : String) → s ≢ t → (s == t) ≡ false
test_of_ne s t h = ground (arith, eq_iff s t)

-- A text is empty only if both of its parts are.
pub append-test_left : (s t : String) → (s == "") ≡ false → (s ++ t == "") ≡ false
append-test_left s t h = test_of_ne (s ++ t) "" (λ e. ne_of_test s "" h (append-eq-nil_iff.0 e).0)

pub append-test_right : (s t : String) → (t == "") ≡ false → (s ++ t == "") ≡ false
append-test_right s t h = test_of_ne (s ++ t) "" (λ e. ne_of_test t "" h (append-eq-nil_iff.0 e).1)

pub Holds-refl : (s : String) → Holds s s
Holds-refl s = ("", "", rw (nil-append, append-nil))

pub Holds-append_right : (s t u : String) → Holds s u → Holds (s ++ t) u
Holds-append_right s t u (before, after, e) = (before, after ++ t, rw e (simp append_assoc))

pub Holds-append_left : (s t u : String) → Holds t u → Holds (s ++ t) u
Holds-append_left s t u (before, after, e) = (s ++ before, after, rw e (simp append_assoc))

pub Holds-nil : (s : String) → Holds s ""
Holds-nil s = ("", s, simp nil-append)

-- Every joined part stands in the joined text.
pub join-Holds : (sep : String) (parts : List String) → All (Holds (join parts sep)) parts
unfolding join
join-Holds sep [] = tt
join-Holds sep (s ∷ []) = (Holds-refl s, tt)
join-Holds sep (s ∷ t ∷ r) =
    let whole = join (s ∷ t ∷ r) sep in
    let later = join (t ∷ r) sep in
    (
      Holds-append_right s (sep ++ later) s (Holds-refl s),
      All-mono (Holds later) (Holds whole)
          (λ x h. Holds-append_left s (sep ++ later) x (Holds-append_left sep later x h)) (t ∷ r)
          (join-Holds sep (t ∷ r)),
    )

-- The bytes of a text are bytes.
code_lt : (c : Char) → code c < 1114112
code_lt (char n h) = ground arith

encode-IsByte : (c : ℕ) → c < 1114112 → All IsByte (encode c)
encode-IsByte c h = ground arith

pub bytes-IsByte : (s : String) → All IsByte (bytes s)
unfolding bytes
bytes-IsByte String.[] = tt
bytes-IsByte (String.◌∷◌ c s) =
    All-append IsByte (encode (code c)) (bytes s) (encode-IsByte (code c) (code_lt c))
      (bytes-IsByte s)

decimals :
    (decimal (pos 0) ≡ "0")
    × (decimal (pos 2147483647) ≡ "2147483647")
    × (decimal (negsuc 136) ≡ "-137")
unfolding decimal
decimals = (refl, refl, refl)

lowered : to_lower (bytes "Probe FAİLED — K") ≡ bytes "probe failed — k"
unfolding to_lower bytes
lowered = refl

joined : join ("MemoryPressure" ∷ "DiskPressure" ∷ []) ", " ≡ "MemoryPressure, DiskPressure"
unfolding join
joined = refl
