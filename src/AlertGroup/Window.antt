-- ===== src/AlertGroup/Window.antt =====
-- Notifications of one key are at least a window apart.
use poddoctor.Prelude.{
  String, false, Option, none, some, List, [], ◌∷◌, ◌==◌, eq_iff, ◌≡◌, refl, sym, subst, arith,
  ◌≤ℤ◌, leb_ℤ_iff, Bool-cases, Option-cases, inl, inr, if◌then◌else◌,
}
use poddoctor.Api.{Time, Duration, sub}
use poddoctor.AlertGroup.{Bucket, Grouper, Verdict, new, lookup, is_open, observe}
use poddoctor.AlertGroup.History.{
  Call, after, verdict, sent, window-after, opened, counted, observe_first, observe_open,
  observe_closed, observe_other,
}

-- Each notification is at least a window behind the one before it.
abbrev pub IsSpaced : Duration → List Time → Type 0
IsSpaced w [] = Unit
IsSpaced w (t ∷ []) = Unit
IsSpaced w (t ∷ u ∷ r) = (w ≤ℤ sub t u) × IsSpaced w (u ∷ r)

-- The bucket of a key opened at its last notification.
abbrev OpenedAt : List Time → Option Bucket → Type 0
OpenedAt [] found = found ≡ none
OpenedAt (t ∷ r) found = (b : Bucket) × (found ≡ some b) × (b.window_start ≡ t)

closed_elapsed :
    (w : Duration) (now : Time) (b : Bucket) → is_open w now b ≡ false → w ≤ℤ sub now b.window_start
unfolding is_open
closed_elapsed w now b o = (leb_ℤ_iff w (sub now b.window_start)).0 (ground arith)

-- The invariant of one key: spaced notifications, the bucket opened at the last.
record Inv (w : Duration) (ts : List Time) (found : Option Bucket) : Type 0 where
  spaced : IsSpaced w ts
  opened_at : OpenedAt ts found

abbrev extend : Verdict → Time → List Time → List Time
extend v now ts = if v.ok then now ∷ ts else ts

Inv-first :
    (w : Duration) (now : Time) (ts : List Time)
    → Inv w ts none
    → Inv w (now ∷ ts) (some (opened now))
Inv-first w now [] v = record { spaced = tt; opened_at = (opened now, refl, refl) }
Inv-first w now (t ∷ r) v = cc (v.opened_at.1)

Inv-closed :
    (w : Duration) (now : Time) (ts : List Time) (b : Bucket)
    → is_open w now b ≡ false
    → Inv w ts (some b)
    → Inv w (now ∷ ts) (some (opened now))
Inv-closed w now [] b o v = cc (v.opened_at)
Inv-closed w now (t ∷ r) b o v =
    let (b', found, start) = v.opened_at in
    let same : b ≡ b' = ground arith in
    record {
      spaced = (rw (← start, ← same) (closed_elapsed w now b o), v.spaced);
      opened_at = (opened now, refl, refl);
    }

Inv-open :
    (w : Duration) (ts : List Time) (b : Bucket) → Inv w ts (some b) → Inv w ts (some (counted b))
Inv-open w [] b v = cc (v.opened_at)
Inv-open w (t ∷ r) b v =
    let (b', found, start) = v.opened_at in
    record { spaced = v.spaced; opened_at = (counted b, refl, ground arith) }

observe-Inv :
    (g : Grouper) (k : String) (now : Time) (ts : List Time)
    → Inv g.window ts (lookup k g.state)
    → Inv g.window (extend (observe g k now).0 now ts) (lookup k (observe g k now).1.state)
observe-Inv g k now ts v = elim (Option-cases (lookup k g.state)) [
  | inl e ↦
      let (verdict, found) = observe_first g k now e in
      rw (verdict, found) (Inv-first g.window now ts (rw e at v))
  | inr (b, e) ↦ elim (Bool-cases (is_open g.window now b)) [
    | inl o ↦
        let (verdict, found) = observe_open g k now b e o in
        rw (verdict, found) (Inv-open g.window ts b (rw e at v))
    | inr o ↦
        let (verdict, found) = observe_closed g k now b e o in
        rw (verdict, found) (Inv-closed g.window now ts b o (rw e at v))
  ]
]

observe-Inv-at :
    (w : Duration) (g : Grouper) (k : String) (now : Time) (ts : List Time)
    → g.window ≡ w
    → Inv w ts (lookup k g.state)
    → Inv w (extend (observe g k now).0 now ts) (lookup k (observe g k now).1.state)
observe-Inv-at w g k now ts e v =
    subst (λ u. Inv u (extend (observe g k now).0 now ts) (lookup k (observe g k now).1.state)) e
      (observe-Inv g k now ts (subst (λ u. Inv u ts (lookup k g.state)) (sym e) v))

sent-Inv :
    (w : Duration) (k : String) (h : List Call) → Inv w (sent w k h) (lookup k (after w h).state)
unfolding sent verdict after
sent-Inv w k [] = record { spaced = tt; opened_at = unfold new lookup in refl }
sent-Inv w k (c ∷ h) = elim (Bool-cases (c.key == k)) [
  | inl e ↦ rw e (
      subst
        (λ key.
          Inv w (extend (observe (after w h) key c.at).0 c.at (sent w k h))
            (lookup k (observe (after w h) key c.at).1.state))
        (sym ((eq_iff _ _).0 e))
        (observe-Inv-at w (after w h) k c.at (sent w k h) (window-after w h) (sent-Inv w k h)))
  | inr d ↦ rw (d, observe_other (after w h) c.key c.at k d) (sent-Inv w k h)
]

-- Over any history of Observe calls on a new grouper, two notifications of a key that follow one
-- another are at least a window apart.
pub sent-IsSpaced : (w : Duration) (k : String) (h : List Call) → IsSpaced w (sent w k h)
sent-IsSpaced w k h = (sent-Inv w k h).spaced
