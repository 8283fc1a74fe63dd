-- ===== src/Json.antt =====
-- JSON values, as encoding/json writes and reads them. Text writes a value; reading is not modelled: a body
-- is a value, or none where its text is no JSON.
pub mod Text
use poddoctor.Prelude.{
  ℕ, String, Bool, true, false, Option, none, some, List, [], ◌∷◌, ◌&&◌, ◌+◌, ℤ, pos, negsuc, leb_ℤ,
  ◌^◌, ◌-◌, is_prefix, drop, leb, nat_eq, if◌then◌else◌,
}
use poddoctor.Text.{bytes}

mutual
  pub data Json : Type 0 where
    null : Json
    bool : Bool → Json
    -- an integer, and a number with a fraction or an exponent
    num : ℤ → Json
    frac : String → Json
    str : String → Json
    arr : Items → Json
    obj : Fields → Json

  pub data Items : Type 0 where
    nil : Items
    cons : Json → Items → Items

  pub data Fields : Type 0 where
    end : Fields
    field : String → Json → Fields → Fields

-- The case folding of field names: the ASCII letters, the Kelvin sign (0xE2 0x84 0xAA) and the long
-- s (0xC5 0xBF); no other rune folds to a letter of a field name here.
unfoldable pub fold_name : List ℕ → List ℕ
fold_name [] = []
fold_name (c ∷ s) =
    let low = fold_name s in
    if is_prefix (0xC5 ∷ 0xBF ∷ []) (c ∷ s)
    then b's' ∷ drop 1 low
    else if is_prefix (0xE2 ∷ 0x84 ∷ 0xAA ∷ []) (c ∷ s)
    then b'k' ∷ drop 2 low
    else (if leb b'A' c && leb c b'Z' then c + 32 else c) ∷ low

abbrev same_bytes : List ℕ → List ℕ → Bool
same_bytes [] [] = true
same_bytes [] (_ ∷ _) = false
same_bytes (_ ∷ _) [] = false
same_bytes (a ∷ s) (b ∷ t) = nat_eq a b && same_bytes s t

-- A key of an object names a field of a struct.
unfoldable pub names : String → String → Bool
unfolding fold_name bytes
names key name = same_bytes (fold_name (bytes key)) (fold_name (bytes name))

-- `omitempty`
unfoldable pub field_if : Bool → String → Json → Fields → Fields
field_if true key v rest = field key v rest
field_if false key v rest = rest

unfoldable pub strings : List String → Items
strings [] = nil
strings (s ∷ r) = cons (str s) (strings r)

-- What decoding a value into a Go variable leaves there, from what it holds; none is an error.
-- `null` leaves it alone.
unfoldable pub get_string : Json → String → Option String
get_string null old = some old
get_string (str s) old = some s
get_string _ old = none

abbrev in_range : ℤ → ℤ → ℤ → Bool
in_range lo hi n = leb_ℤ lo n && leb_ℤ n hi

unfoldable pub get_int : ℕ → Json → ℤ → Option ℤ
get_int bits null old = some old
get_int bits (num n) old =
    if in_range (negsuc (2 ^ (bits - 1) - 1)) (pos (2 ^ (bits - 1) - 1)) n then some n else none
get_int bits _ old = none

-- An element `null` is the empty string.
unfoldable pub get_items : Items → Option (List String)
get_items nil = some []
get_items (cons null r) = elim (get_items r) [ none ↦ none | some ss ↦ some ("" ∷ ss) ]
get_items (cons (str s) r) = elim (get_items r) [ none ↦ none | some ss ↦ some (s ∷ ss) ]
get_items (cons _ r) = none

unfoldable pub get_strings : Json → List String → Option (List String)
unfolding get_items
get_strings null old = some []
get_strings (arr items) old = get_items items
get_strings _ old = none
