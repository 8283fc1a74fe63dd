-- ===== src/AlertGroup/Total.antt =====
-- The occurrences that wait in all groups together.
use poddoctor.Prelude.{
  ℕ, suc, String, none, some, Option, List, [], ◌∷◌, ◌+◌, ◌≤◌, ◌==◌, ◌≡◌, arith, Bool-cases,
  Option-cases, inl, inr, if◌then◌else◌,
}
use poddoctor.Api.{Time}
use poddoctor.AlertGroup.{Bucket, Grouper, Verdict, lookup, store, observe}
use poddoctor.AlertGroup.History.{opened, counted}

abbrev total : List (String × Bucket) → ℕ
total [] = 0
total ((k, b) ∷ rest) = b.suppressed + total rest

abbrev pub waiting : Grouper → ℕ
waiting g = total g.state

abbrev held : Option Bucket → ℕ
held none = 0
held (some b) = b.suppressed

total-store :
    (k : String) (b : Bucket) (m : List (String × Bucket))
    → total (store k b m) + held (lookup k m) ≡ total m + b.suppressed
unfolding lookup store
total-store k b [] = omega arith
total-store k b ((i, old) ∷ m) = elim (Bool-cases (i == k)) [
  | inl e ↦ rw e (omega arith)
  | inr e ↦ let h = total-store k b m in rw e (omega arith)
]

-- What a call lets through: itself, and what was folded.
abbrev pub told : Verdict → ℕ
told v = if v.ok then suc v.suppressed else 0

-- A call notifies with what waited for its key, or adds itself to what waits.
module _ (g : Grouper) (key : String) (now : Time) where
  pub observe_balances :
      told (observe g key now).0 + waiting (observe g key now).1 ≡ suc (waiting g)
  unfolding observe
  observe_balances = elim (Option-cases (lookup key g.state)) [
    | inl e ↦ ground (arith, total-store key (opened now) g.state, e)
    | inr (b, e) ↦
        ground (arith, total-store key (opened now) g.state, total-store key (counted b) g.state, e)
  ]

  pub suppressed_le : (observe g key now).0.suppressed ≤ waiting g
  unfolding observe
  suppressed_le = elim (Option-cases (lookup key g.state)) [
    | inl e ↦ ground (arith, e)
    | inr (b, e) ↦ ground (arith, total-store key (opened now) g.state, e)
  ]
