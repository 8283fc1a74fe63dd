-- ===== src/Controller/Evidence/Recent.antt =====
-- The events that the reconciler keeps.
use mathlib.Core.List.{◌++◌}
use mathlib.Core.List.{Perm}
use poddoctor.Prelude.{
  Bool, true, false, ℕ, zero, suc, ◌≤◌, none, some, List, [], ◌∷◌, ◌≡◌, refl, sym, ap, subst, arith,
  length, take, drop, take-append-drop, All, All-drop, ◌⊎◌, inl, inr,
}
use poddoctor.Api.{EvidenceEvent}
use poddoctor.Controller.Pods.{Pod}
use poddoctor.Controller.Evidence.{Cluster, max_events, newer, recent_events}

abbrev pub IsOlder : EvidenceEvent → EvidenceEvent → Type 0
IsOlder e d = d.last_timestamp ≤ e.last_timestamp

-- No event of the list is newer than one before it.
abbrev pub IsNewestFirst : List EvidenceEvent → Type 0
IsNewestFirst [] = Unit
IsNewestFirst (e ∷ rest) = All (IsOlder e) rest × IsNewestFirst rest

-- What sort.Slice asks of its comparator.
pub record IsStrictWeak (less : EvidenceEvent → EvidenceEvent → Bool) : Type 0 where
  pub asymmetric : (a b : EvidenceEvent) → less a b ≡ true → less b a ≡ false
  pub negatively_transitive :
      (a b c : EvidenceEvent) → less b a ≡ false → less c b ≡ false → less c a ≡ false

-- No element is less than one before it.
abbrev pub IsSorted : (EvidenceEvent → EvidenceEvent → Bool) → List EvidenceEvent → Type 0
IsSorted less [] = Unit
IsSorted less (a ∷ rest) = All (λ b. less b a ≡ false) rest × IsSorted less rest

-- What sort.Slice does to a list, under each comparator that it allows.
abbrev pub IsSliceSort : Cluster → List EvidenceEvent → Type 0
IsSliceSort cluster found =
    (less : EvidenceEvent → EvidenceEvent → Bool)
    → IsStrictWeak less
    → Perm (cluster.sort_slice less found) found × IsSorted less (cluster.sort_slice less found)

newer-IsStrictWeak : IsStrictWeak newer
unfolding newer
newer-IsStrictWeak = record {
  asymmetric = λ a b h. ground arith;
  negatively_transitive = λ a b c h k. ground arith;
}

sorted-IsOlder :
    (a : EvidenceEvent) (es : List EvidenceEvent)
    → All (λ b. newer b a ≡ false) es
    → All (IsOlder a) es
unfolding newer
sorted-IsOlder a [] h = tt
sorted-IsOlder a (e ∷ es) (h, k) = (ground arith, sorted-IsOlder a es k)

sorted-IsNewestFirst : (es : List EvidenceEvent) → IsSorted newer es → IsNewestFirst es
sorted-IsNewestFirst [] h = tt
sorted-IsNewestFirst (e ∷ es) (h, k) = (sorted-IsOlder e es h, sorted-IsNewestFirst es k)

take-IsNewest :
    (n : ℕ) (es : List EvidenceEvent)
    → IsNewestFirst es
    → All (λ e. All (IsOlder e) (drop n es)) (take n es)
take-IsNewest zero es h = tt
take-IsNewest (suc n) [] h = tt
take-IsNewest (suc n) (e ∷ es) (h, k) = (All-drop (IsOlder e) n es h, take-IsNewest n es k)

take_full :
    (n : ℕ) (es : List EvidenceEvent)
    → (length (take n es) ≤ n) × ((drop n es ≡ []) ⊎ (length (take n es) ≡ n))
take_full zero es = (omega arith, inr refl)
take_full (suc n) [] = (omega arith, inl refl)
take_full (suc n) (e ∷ es) =
    let (a, b) = take_full n es in (omega arith, elim b [ inl x ↦ inl x | inr x ↦ inr (ap suc x) ])

-- The events that are kept of those found: at most five, the others left out only beyond five, and
-- none of them newer than one that is kept.
abbrev pub IsNewest : List EvidenceEvent → List EvidenceEvent → Type 0
IsNewest found kept =
    (left_out : List EvidenceEvent) × Perm (kept ++ left_out) found
    × All (λ e. All (IsOlder e) left_out) kept
    × (length kept ≤ max_events)
    × ((left_out ≡ []) ⊎ (length kept ≡ max_events))

recent_events-take :
    (cluster : Cluster) (pod : Pod) (found : List EvidenceEvent)
    → cluster.search_events pod ≡ some found
    → recent_events cluster pod ≡ take max_events (cluster.sort_slice newer found)
unfolding recent_events
recent_events-take cluster pod found e =
    ap (λ x. elim x [ none ↦ [] | some events ↦ take max_events (cluster.sort_slice newer events) ])
      e

-- When the search for events succeeds, and sort.Slice permutes its result, under every comparator
-- that is a strict weak order, so that no element is less than one before it, recentEvents keeps
-- at most five of them, leaves some out only when it keeps five, and leaves out none that is
-- newer than one it keeps.
pub recent_events-IsNewest :
    (cluster : Cluster) (pod : Pod) (found : List EvidenceEvent)
    → cluster.search_events pod ≡ some found
    → IsSliceSort cluster found
    → IsNewest found (recent_events cluster pod)
recent_events-IsNewest cluster pod found e law =
    let (p, ordered) = law newer newer-IsStrictWeak in
    let sorted = cluster.sort_slice newer found in
    subst (IsNewest found) (sym (recent_events-take cluster pod found e)) (
      drop max_events sorted,
      subst (λ l. Perm l found) (sym (take-append-drop max_events sorted)) p,
      take-IsNewest max_events sorted (sorted-IsNewestFirst sorted ordered),
      (take_full max_events sorted).0,
      (take_full max_events sorted).1,
    )
