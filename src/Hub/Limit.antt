-- ===== src/Hub/Limit.antt =====
-- The limit of a listing.
use poddoctor.Prelude.{
  leb, Bool-cases, inl, inr, ◌&&◌, ◌^◌, ◌<◌, if◌then◌else◌, ℕ, String, List, pos, ◌≡◌, ◌∙◌, ap,
  ◌≤ℤ◌, leb_ℤ_iff, arith,
}
use poddoctor.Text.{bytes, decimal}
use poddoctor.Text.Number.{atoi}
use poddoctor.Text.Decimal.{atoi-decimal}
use poddoctor.Hub.Store.{Filter, list_limit}
use poddoctor.Hub.Api.{get, filter_from_query}

-- Whatever limit is asked for, the query takes between 1 and 500 rows; a limit in that range is kept.
pub list_limit_bounds :
    (f : Filter)
    → ((pos 1 ≤ℤ list_limit f) × (list_limit f ≤ℤ pos 500))
      × (pos 1 ≤ℤ f.limit → f.limit ≤ℤ pos 500 → list_limit f ≡ f.limit)
unfolding list_limit
list_limit_bounds f = ground (arith, leb_ℤ_iff f.limit (pos 0), leb_ℤ_iff f.limit (pos 500))

asked_number :
    (f : Filter) (n : ℕ)
    → f.limit ≡ pos n
    → list_limit f ≡ (if leb 1 n && leb n 500 then pos n else pos 200)
unfolding list_limit
asked_number f n e = elim (Bool-cases (leb 1 n && leb n 500)) [
  | inl b ↦ rw b ((list_limit_bounds f).1 (rw e (ground arith)) (rw e (ground arith)) ∙ e)
  | inr b ↦ rw (e, b) (ground arith)
]

-- A listing takes between 1 and 500 rows whatever its query says; one that asks for a number of
-- rows below 2^63 is limited to as many if that is between 1 and 500, and to 200 otherwise.
pub asked_limit :
    (q : List (String × String))
    → ((pos 1 ≤ℤ list_limit (filter_from_query q)) × (list_limit (filter_from_query q) ≤ℤ pos 500))
      × ((n : ℕ)
          → get q "limit" ≡ decimal (pos n)
          → n < 2 ^ 63
          → list_limit (filter_from_query q) ≡ (if leb 1 n && leb n 500 then pos n else pos 200))
unfolding filter_from_query
asked_limit q =
    let f = filter_from_query q in
    (
      (list_limit_bounds f).0,
      λ n e h. asked_number f n (ap (λ s. atoi (bytes s)) e ∙ atoi-decimal n h),
    )
