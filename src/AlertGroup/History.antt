-- ===== src/AlertGroup/History.antt =====
-- Histories of `Observe` calls on one grouper, newest call first: no occurrence is lost.
use poddoctor.Prelude.{
  ℕ, suc, String, true, false, none, some, List, [], ◌∷◌, ◌+◌, ◌==◌, eq_iff, eq_refl, ◌≡◌, refl,
  arith, length, Bool-cases, Option-cases, inl, inr, if◌then◌else◌, ◌&&◌,
}
use poddoctor.Api.{Time, Duration}
use poddoctor.AlertGroup.{Bucket, Grouper, Verdict, new, lookup, store, is_open, observe}

pub record Call : Type 0 where
  pub key : String
  pub at : Time

-- The grouper after a history, and what the newest call of it returned.
unfoldable pub after : Duration → List Call → Grouper
after w [] = new w
after w (c ∷ h) = (observe (after w h) c.key c.at).1

unfoldable pub verdict : Duration → Call → List Call → Verdict
verdict w c h = (observe (after w h) c.key c.at).0

lookup-store :
    (k j : String) (b : Bucket) (m : List (String × Bucket))
    → lookup j (store k b m) ≡ (if k == j then some b else lookup j m)
unfolding lookup store
lookup-store k j b [] = refl
lookup-store k j b ((i, old) ∷ m) =
    ground (arith, eq_iff k j, eq_iff i k, eq_iff i j, lookup-store k j b m)

pub window-after : (w : Duration) (h : List Call) → (after w h).window ≡ w
unfolding after new observe
window-after w [] = refl
window-after w (c ∷ h) = ground (arith, window-after w h)

-- The times at which a key was notified, how many occurrences these notifications folded in, how
-- many wait in the bucket, and how many there were.
unfoldable pub sent : Duration → String → List Call → List Time
sent w k [] = []
sent w k (c ∷ h) =
    let older = sent w k h in if c.key == k && (verdict w c h).ok then c.at ∷ older else older

unfoldable pub folded : Duration → String → List Call → ℕ
folded w k [] = 0
folded w k (c ∷ h) =
    let older = folded w k h in if c.key == k then (verdict w c h).suppressed + older else older

unfoldable pub pending : String → Grouper → ℕ
pending k g = elim (lookup k g.state) [ none ↦ 0 | some b ↦ b.suppressed ]

unfoldable pub occurrences : String → List Call → ℕ
occurrences k [] = 0
occurrences k (c ∷ h) = let older = occurrences k h in if c.key == k then suc older else older

abbrev pub opened : Time → Bucket
opened now = record { window_start = now; suppressed = 0 }

abbrev pub counted : Bucket → Bucket
counted b = record b { suppressed = b.suppressed + 1 }

-- One call on a grouper: another key, and the three cases for the call's own key.
module _ (g : Grouper) (key : String) (now : Time) where
  pub observe_other :
      (k : String) → (key == k) ≡ false → lookup k (observe g key now).1.state ≡ lookup k g.state
  unfolding observe
  observe_other k d = elim (Option-cases (lookup key g.state)) [
    | inl e ↦ ground (arith, lookup-store key k (opened now) g.state)
    | inr (b, e) ↦
        ground
          (arith, lookup-store key k (opened now) g.state, lookup-store key k (counted b) g.state)
  ]

  pub observe_first :
      lookup key g.state ≡ none
      → ((observe g key now).0 ≡ record { ok = true; suppressed = 0 })
        × (lookup key (observe g key now).1.state ≡ some (opened now))
  unfolding observe
  observe_first e = ground (arith, lookup-store key key (opened now) g.state, eq_refl key)

  pub observe_open :
      (b : Bucket)
      → lookup key g.state ≡ some b
      → is_open g.window now b ≡ true
      → ((observe g key now).0 ≡ record { ok = false; suppressed = 0 })
        × (lookup key (observe g key now).1.state ≡ some (counted b))
  unfolding observe
  observe_open b e o = ground (arith, lookup-store key key (counted b) g.state, eq_refl key)

  pub observe_closed :
      (b : Bucket)
      → lookup key g.state ≡ some b
      → is_open g.window now b ≡ false
      → ((observe g key now).0 ≡ record { ok = true; suppressed = b.suppressed })
        × (lookup key (observe g key now).1.state ≡ some (opened now))
  unfolding observe
  observe_closed b e o = ground (arith, lookup-store key key (opened now) g.state, eq_refl key)

abbrev pub count_ok : Verdict → ℕ
count_ok v = if v.ok then 1 else 0

pub observe_same :
    (g : Grouper) (k : String) (now : Time)
    → count_ok (observe g k now).0 + (observe g k now).0.suppressed + pending k (observe g k now).1
      ≡ suc (pending k g)
unfolding pending
observe_same g k now = elim (Option-cases (lookup k g.state)) [
  | inl e ↦ ground (arith, observe_first g k now e)
  | inr (b, e) ↦ ground (arith, observe_open g k now b e, observe_closed g k now b e)
]

pub pending_other :
    (g : Grouper) (key k : String) (now : Time)
    → (key == k) ≡ false
    → pending k (observe g key now).1 ≡ pending k g
unfolding pending
pending_other g key k now d = ground (arith, observe_other g key now k d)

-- Over any history of Observe calls on a new grouper, the notifications of a key, the occurrences
-- folded into them and the count in its bucket add up to the occurrences of the key.
pub observe_conserves :
    (w : Duration) (k : String) (h : List Call)
    → length (sent w k h) + folded w k h + pending k (after w h) ≡ occurrences k h
unfolding sent folded occurrences after verdict
observe_conserves w k [] = unfold pending new lookup in refl
observe_conserves w k (c ∷ h) = elim (Bool-cases (c.key == k)) [
  | inl e ↦
      let same : c.key ≡ k = (eq_iff _ _).0 e in
      ground (arith, same, observe_conserves w k h, observe_same (after w h) c.key c.at)
  | inr d ↦ ground (arith, observe_conserves w k h, pending_other (after w h) c.key k c.at d)
]
