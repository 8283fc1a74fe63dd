-- ===== src/Text.antt =====
-- What the program uses of Go's `strings` and `fmt`: lower case, joining, decimals, and texts that
-- contain texts. A Go string that is valid UTF-8 is a `String`; where the code walks its bytes it
-- is a list of numbers below 256.
pub mod Laws
pub mod Query
pub mod Number
pub mod Utf8
pub mod Split
pub mod Decimal
use Prim.Native.Nat.{◌-◌}
use Prim.Native.Char.{code}
use Prim.Native.String.{◌++◌}
use mathlib.Core.List.{◌++◌ as append}
use poddoctor.Prelude.{
  ℕ, zero, suc, ◌+◌, ◌/◌, ◌%◌, String, ◌&&◌, List, [], ◌∷◌, is_prefix, drop, ltb, leb,
  if◌then◌else◌, ℤ, pos, negsuc, ◌≡◌,
}

-- The UTF-8 bytes of one code point.
abbrev pub encode : ℕ → List ℕ
encode c =
    if ltb c 128
    then c ∷ []
    else if ltb c 2048
    then (192 + c / 64) ∷ (128 + c % 64) ∷ []
    else if ltb c 65536
    then (224 + c / 4096) ∷ (128 + c / 64 % 64) ∷ (128 + c % 64) ∷ []
    else (240 + c / 262144) ∷ (128 + c / 4096 % 64) ∷ (128 + c / 64 % 64) ∷ (128 + c % 64) ∷ []

-- The bytes of a Go string.
unfoldable pub bytes : String → List ℕ
bytes String.[] = []
bytes (String.◌∷◌ c s) = append (encode (code c)) (bytes s)

abbrev lower_ascii : ℕ → ℕ
lower_ascii c = if leb b'A' c && leb c b'Z' then c + 32 else c

-- strings.ToLower over bytes. Besides the ASCII capitals two runes have an ASCII lower case: U+0130
-- (bytes 0xC4 0xB0, to `i`) and the Kelvin sign U+212A (0xE2 0x84 0xAA, to `k`). Every other rune above
-- ASCII has a lower case without ASCII bytes, and stays as it is here: a search for an ASCII text
-- sees no difference.
unfoldable pub to_lower : List ℕ → List ℕ
to_lower [] = []
to_lower (c ∷ s) =
    let low = to_lower s in
    if is_prefix (0xC4 ∷ 0xB0 ∷ []) (c ∷ s)
    then b'i' ∷ drop 1 low
    else if is_prefix (0xE2 ∷ 0x84 ∷ 0xAA ∷ []) (c ∷ s)
    then b'k' ∷ drop 2 low
    else lower_ascii c ∷ low

-- The decimal digits of a number, in front of `rest`; the fuel is above the number of digits.
abbrev pub digit : ℕ → String
digit zero = "0"
digit (suc zero) = "1"
digit (suc (suc zero)) = "2"
digit (suc (suc (suc zero))) = "3"
digit (suc (suc (suc (suc zero)))) = "4"
digit (suc (suc (suc (suc (suc zero))))) = "5"
digit (suc (suc (suc (suc (suc (suc zero)))))) = "6"
digit (suc (suc (suc (suc (suc (suc (suc zero))))))) = "7"
digit (suc (suc (suc (suc (suc (suc (suc (suc zero)))))))) = "8"
digit _ = "9"

unfoldable pub digits_from : ℕ → ℕ → String → String
digits_from zero n rest = rest
digits_from (suc fuel) n rest =
    let longer = digits_from fuel (n / 10) (digit (n % 10) ++ rest) in
    if ltb n 10 then digit n ++ rest else longer

-- `%d` of fmt.
unfoldable pub decimal : ℤ → String
unfolding digits_from
decimal (pos n) = digits_from (suc n) n ""
decimal (negsuc n) = "-" ++ digits_from (suc (suc n)) (suc n) ""

-- strings.Join
unfoldable pub join : List String → String → String
join [] sep = ""
join (s ∷ []) sep = s
join (s ∷ t ∷ r) sep = s ++ (sep ++ join (t ∷ r) sep)

-- `t` stands somewhere in `s`.
abbrev pub Holds : String → String → Type 0
Holds s t = (before : String) × (after : String) × (s ≡ before ++ (t ++ after))
