-- ===== src/Text/Number.antt =====
-- strconv.Atoi of Go over bytes, without its error: 0 for what is no number, and the extreme value for a
-- number that 64 bits do not hold.
use poddoctor.Prelude.{
  ℕ, Bool, true, false, ◌&&◌, ◌+◌, ◌-◌, ◌*◌, ◌^◌, List, [], ◌∷◌, Option, none, some, ℤ, pos, negsuc,
  ltb, leb, nat_eq, not, if◌then◌else◌,
}

abbrev max_uint : ℕ
max_uint = 2 ^ 64 - 1

-- strconv.ParseUint: none is a syntax error; a number out of range ends the scan with the largest.
unfoldable pub parse_uint : ℕ → List ℕ → Option ℕ
parse_uint n [] = some n
parse_uint n (c ∷ s) =
    let next = n * 10 + (c - b'0') in
    let rest = parse_uint next s in
    if not (leb b'0' c && leb c b'9')
    then none
    else if ltb max_uint next
    then some max_uint
    else rest

-- strconv.ParseInt on what stands behind the sign.
unfoldable pub parse_magnitude : Bool → List ℕ → ℤ
unfolding parse_uint
parse_magnitude negative [] = pos 0
parse_magnitude negative (c ∷ s) = elim (parse_uint 0 (c ∷ s)) [
  | none ↦ pos 0
  | some n ↦
      if negative
      then (if nat_eq n 0
          then pos 0
          else if ltb (2 ^ 63) n
          then negsuc (2 ^ 63 - 1)
          else negsuc (n - 1))
      else if leb (2 ^ 63) n
      then pos (2 ^ 63 - 1)
      else pos n
]

unfoldable pub atoi : List ℕ → ℤ
unfolding parse_magnitude
atoi [] = pos 0
atoi (c ∷ s) =
    if nat_eq c b'-'
    then parse_magnitude true s
    else if nat_eq c b'+'
    then parse_magnitude false s
    else parse_magnitude false (c ∷ s)
