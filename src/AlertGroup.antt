-- ===== src/AlertGroup.antt =====
-- internal/alertgroup/alertgroup.go: alert grouping. `Observe` runs under the grouper's mutex, so
-- concurrent calls are one sequence of calls; the clock's reading is an argument of each call. The
-- count of a bucket, an int of Go, is a number without bound.
pub mod History
pub mod Window
pub mod Total
mod Tests
use poddoctor.Prelude.{
  ℕ, String, Bool, true, false, Option, none, some, List, [], ◌∷◌, ◌+◌, ◌==◌, leb_ℤ, if◌then◌else◌,
}
use poddoctor.Api.{Time, Duration, sub}

pub record Bucket : Type 0 where
  pub window_start : Time
  pub suppressed : ℕ

-- The map of the grouper, by key.
pub record Grouper : Type 0 where
  pub window : Duration
  pub state : List (String × Bucket)

unfoldable pub new : Duration → Grouper
new window = record { window = window; state = [] }

-- g.state[key], and the write of it.
unfoldable pub lookup : String → List (String × Bucket) → Option Bucket
lookup key [] = none
lookup key ((k, b) ∷ rest) = if k == key then some b else lookup key rest

unfoldable pub store : String → Bucket → List (String × Bucket) → List (String × Bucket)
store key b [] = (key, b) ∷ []
store key b ((k, old) ∷ rest) =
    let later = store key b rest in if k == key then (k, b) ∷ rest else (k, old) ∷ later

-- What `Observe` returns.
pub record Verdict : Type 0 where
  pub ok : Bool
  pub suppressed : ℕ

-- The window of a bucket is open at `now`.
unfoldable pub is_open : Duration → Time → Bucket → Bool
is_open window now b = elim (leb_ℤ window (sub now b.window_start)) [ true ↦ false | false ↦ true ]

unfoldable pub observe : Grouper → String → Time → Verdict × Grouper
observe g key now = elim (lookup key g.state) [
  | none ↦ (
    record { ok = true; suppressed = 0 },
    record g { state = store key (record { window_start = now; suppressed = 0 }) g.state },
  )
  | some b ↦
      if is_open g.window now b
      then (
        record { ok = false; suppressed = 0 },
        record g { state = store key (record b { suppressed = b.suppressed + 1 }) g.state },
      )
      else (
        record { ok = true; suppressed = b.suppressed },
        record g { state = store key (record { window_start = now; suppressed = 0 }) g.state },
      )
]
