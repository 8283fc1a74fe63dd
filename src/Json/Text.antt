-- ===== src/Json/Text.antt =====
-- The text that json.Marshal writes for a value, as bytes: no white space, and the characters of HTML
-- escaped in strings. The keys of a Go map are written in their order; the values here have theirs in
-- that order already.
use mathlib.Core.List.{◌++◌}
use poddoctor.Prelude.{
  ℕ, String, true, false, ◌||◌, List, [], ◌∷◌, ◌+◌, ◌-◌, ◌/◌, ◌%◌, arith, ltb, nat_eq, is_prefix,
  drop, All, All-append, All-drop, All-if, if◌then◌else◌,
}
use poddoctor.Text.{bytes, decimal}
use poddoctor.Text.Laws.{bytes-IsByte}
use poddoctor.Text.Query.{IsByte}
use poddoctor.Json.{
  Json, null, bool, num, frac, str, arr, obj, Items, nil, cons, Fields, end, field,
}

abbrev low_hex : ℕ → ℕ
low_hex d = if ltb d 10 then b'0' + d else b'a' + (d - 10)

-- One byte of a string.
unfoldable pub quote_byte : ℕ → List ℕ
quote_byte c =
    if nat_eq c b'"' || nat_eq c b'\\'
    then b'\\' ∷ c ∷ []
    else if nat_eq c 8
    then b'\\' ∷ b'b' ∷ []
    else if nat_eq c 12
    then b'\\' ∷ b'f' ∷ []
    else if nat_eq c 10
    then b'\\' ∷ b'n' ∷ []
    else if nat_eq c 13
    then b'\\' ∷ b'r' ∷ []
    else if nat_eq c 9
    then b'\\' ∷ b't' ∷ []
    else if ltb c 32 || nat_eq c b'<' || nat_eq c b'>' || nat_eq c b'&'
    then b'\\' ∷ b'u' ∷ b'0' ∷ b'0' ∷ low_hex (c / 16) ∷ low_hex (c % 16) ∷ []
    else c ∷ []

-- The bytes of a valid string; U+2028 and U+2029 are escaped as well.
unfoldable pub quote_bytes : List ℕ → List ℕ
unfolding quote_byte
quote_bytes [] = []
quote_bytes (c ∷ s) =
    let rest = quote_bytes s in
    if is_prefix (0xE2 ∷ 0x80 ∷ 0xA8 ∷ []) (c ∷ s)
    then b'\\' ∷ b'u' ∷ b'2' ∷ b'0' ∷ b'2' ∷ b'8' ∷ drop 2 rest
    else if is_prefix (0xE2 ∷ 0x80 ∷ 0xA9 ∷ []) (c ∷ s)
    then b'\\' ∷ b'u' ∷ b'2' ∷ b'0' ∷ b'2' ∷ b'9' ∷ drop 2 rest
    else quote_byte c ++ rest

unfoldable pub string_text : String → List ℕ
unfolding quote_bytes bytes
string_text s = b'"' ∷ (quote_bytes (bytes s) ++ b'"' ∷ [])

unfoldable mutual
  unfolding string_text bytes decimal

  pub json_text : Json → List ℕ
  json_text null = bytes "null"
  json_text (bool b) = if b then bytes "true" else bytes "false"
  json_text (num n) = bytes (decimal n)
  json_text (frac s) = bytes s
  json_text (str s) = string_text s
  json_text (arr items) = b'[' ∷ (items_text items ++ b']' ∷ [])
  json_text (obj fields) = b'{' ∷ (fields_text fields ++ b'}' ∷ [])

  pub items_text : Items → List ℕ
  items_text nil = []
  items_text (cons v nil) = json_text v
  items_text (cons v rest) = json_text v ++ b',' ∷ items_text rest

  pub fields_text : Fields → List ℕ
  fields_text end = []
  fields_text (field key v end) = string_text key ++ b':' ∷ json_text v
  fields_text (field key v rest) =
      string_text key ++ b':' ∷ (json_text v ++ b',' ∷ fields_text rest)

quote_byte-IsByte : (c : ℕ) → IsByte c → All IsByte (quote_byte c)
unfolding quote_byte
quote_byte-IsByte c h = ground arith

-- An escape of six characters before what the rest of the string gives.
six-IsByte :
    (c : ℕ) (rest : List ℕ)
    → IsByte c
    → All IsByte rest
    → All IsByte (b'\\' ∷ b'u' ∷ b'2' ∷ b'0' ∷ b'2' ∷ c ∷ drop 2 rest)
six-IsByte c rest b h = (
  omega arith,
  (omega arith, (omega arith, (omega arith, (omega arith, (b, All-drop IsByte 2 rest h))))),
)

quote_bytes-IsByte : (s : List ℕ) → All IsByte s → All IsByte (quote_bytes s)
unfolding quote_bytes
quote_bytes-IsByte [] h = tt
quote_bytes-IsByte (c ∷ s) (b, h) =
    let ih = quote_bytes-IsByte s h in
    All-if IsByte (is_prefix (0xE2 ∷ 0x80 ∷ 0xA8 ∷ []) (c ∷ s)) _ _
      (six-IsByte b'8' (quote_bytes s) (omega arith) ih)
      (All-if IsByte (is_prefix (0xE2 ∷ 0x80 ∷ 0xA9 ∷ []) (c ∷ s)) _ _
        (six-IsByte b'9' (quote_bytes s) (omega arith) ih)
        (All-append IsByte (quote_byte c) (quote_bytes s) (quote_byte-IsByte c b) ih))

string_text-IsByte : (s : String) → All IsByte (string_text s)
unfolding string_text
string_text-IsByte s = (
  omega arith,
  All-append IsByte (quote_bytes (bytes s)) (b'"' ∷ [])
      (quote_bytes-IsByte (bytes s) (bytes-IsByte s)) (omega arith, tt),
)

mutual
  unfolding json_text items_text fields_text

  json_text_bytes : (v : Json) → All IsByte (json_text v)
  json_text_bytes null = bytes-IsByte "null"
  json_text_bytes (bool true) = bytes-IsByte "true"
  json_text_bytes (bool false) = bytes-IsByte "false"
  json_text_bytes (num n) = bytes-IsByte (decimal n)
  json_text_bytes (frac s) = bytes-IsByte s
  json_text_bytes (str s) = string_text-IsByte s
  json_text_bytes (arr items) = (
    omega arith,
    All-append IsByte (items_text items) (b']' ∷ []) (items_text_bytes items) (omega arith, tt),
  )
  json_text_bytes (obj fields) = (
    omega arith,
    All-append IsByte (fields_text fields) (b'}' ∷ []) (fields_text_bytes fields) (omega arith, tt),
  )

  items_text_bytes : (items : Items) → All IsByte (items_text items)
  items_text_bytes nil = tt
  items_text_bytes (cons v nil) = json_text_bytes v
  items_text_bytes (cons v (cons w rest)) =
      All-append IsByte (json_text v) (b',' ∷ items_text (cons w rest)) (json_text_bytes v)
        (omega arith, items_text_bytes (cons w rest))

  fields_text_bytes : (fields : Fields) → All IsByte (fields_text fields)
  fields_text_bytes end = tt
  fields_text_bytes (field key v end) =
      All-append IsByte (string_text key) (b':' ∷ json_text v) (string_text-IsByte key)
        (omega arith, json_text_bytes v)
  fields_text_bytes (field key v (field l w rest)) =
      All-append IsByte (string_text key)
        (b':' ∷ (json_text v ++ b',' ∷ fields_text (field l w rest))) (string_text-IsByte key)
        (
          omega arith,
          All-append IsByte (json_text v) (b',' ∷ fields_text (field l w rest)) (json_text_bytes v)
              (omega arith, fields_text_bytes (field l w rest)),
        )

-- The text of a value consists of bytes.
pub json_text-IsByte : (v : Json) → All IsByte (json_text v)
json_text-IsByte v = json_text_bytes v
