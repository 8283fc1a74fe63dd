-- ===== src/Controller/Evidence/Laws.antt =====
-- Bounds of the evidence, and what the engine can see of a failing container.
use mathlib.Core.List.{◌++◌}
use poddoctor.Prelude.{
  ℕ, zero, suc, ◌≤◌, ◌-◌, Bool, true, false, Option, none, some, List, [], ◌∷◌, ◌≡◌, inl, inr, refl,
  ap, arith, ltb, length, take, drop, length-drop, take-append-drop, All, All-append, Bool-cases,
  if◌then◌else◌,
}
use poddoctor.Controller.Pods.{
  Pod, ContainerStatus, FailingContainer, Waiting, triggers, is_failing, failing_among,
  find_failing_containers,
}
use poddoctor.Controller.Evidence.{max_bytes, max_len, excerpt}

-- The cut of `excerpt`, for any bound.
cut_bounds :
    (n : ℕ) (text : List ℕ)
    → (length (if ltb n (length text) then drop (length text - n) text else text) ≤ n)
      × ((before : List ℕ) × (before
              ++ (if ltb n (length text) then drop (length text - n) text else text)
            ≡ text))
cut_bounds n text = elim (Bool-cases (ltb n (length text))) [
  | inl e ↦ rw e (
    omega (arith, length-drop (length text - n) text),
    (take (length text - n) text, take-append-drop (length text - n) text),
  )
  | inr e ↦ rw e (ground arith, ([], refl))
]

-- The log excerpt has at most 4000 bytes, and is the end of the first 8192 bytes of the log
-- stream.
pub excerpt_bounds :
    (stream : List ℕ)
    → (length (excerpt stream) ≤ max_len)
      × ((before : List ℕ) × (before ++ excerpt stream ≡ take max_bytes stream))
unfolding excerpt
excerpt_bounds stream = cut_bounds max_len (take max_bytes stream)

take-append : (n : ℕ) (s t : List ℕ) → length s ≡ n → take n (s ++ t) ≡ take n s
take-append zero s t e = refl
take-append (suc n) [] t e = absurd (omega arith)
take-append (suc n) (c ∷ s) t e = ap (λ r. c ∷ r) (take-append n s t (omega arith))

-- When the stream has more than 8192 bytes, what follows them does not change the log excerpt.
pub excerpt_drops_end :
    (stream rest : List ℕ) → length stream ≡ max_bytes → excerpt (stream ++ rest) ≡ excerpt stream
unfolding excerpt
excerpt_drops_end stream rest e = rw (take-append max_bytes stream rest e)

-- Every container that the controller diagnoses waits with a reason that triggers it.
abbrev pub IsTriggered : FailingContainer → Type 0
IsTriggered fc = (w : Waiting) × (fc.status.waiting ≡ some w) × (triggers w.reason ≡ true)

failing_waits :
    (cs : ContainerStatus)
    → is_failing cs ≡ true
    → (w : Waiting) × (cs.waiting ≡ some w) × (triggers w.reason ≡ true)
unfolding is_failing
failing_waits cs h = go cs.waiting h
  where
    go :
        (found : Option Waiting)
        → elim found [ none ↦ false | some w ↦ triggers w.reason ] ≡ true
        → (w : Waiting) × (found ≡ some w) × (triggers w.reason ≡ true)
    go none h = cc
    go (some w) h = (w, refl, h)

failing_among-IsTriggered :
    (is_init : Bool) (statuses : List ContainerStatus)
    → All IsTriggered (failing_among is_init statuses)
unfolding failing_among
failing_among-IsTriggered is_init [] = tt
failing_among-IsTriggered is_init (cs ∷ rest) = elim (Bool-cases (is_failing cs)) [
  | inl e ↦ rw e (failing_waits cs e, failing_among-IsTriggered is_init rest)
  | inr e ↦ rw e (failing_among-IsTriggered is_init rest)
]

pub find_failing_containers-IsTriggered :
    (pod : Pod) → All IsTriggered (find_failing_containers pod)
unfolding find_failing_containers
find_failing_containers-IsTriggered pod =
    All-append IsTriggered (failing_among true pod.init_statuses) (failing_among false pod.statuses)
      (failing_among-IsTriggered true pod.init_statuses)
      (failing_among-IsTriggered false pod.statuses)
