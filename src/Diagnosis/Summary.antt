-- ===== src/Diagnosis/Summary.antt =====
-- What the summary and the recommendation of a diagnosis say.
use Prim.Native.String.{◌++◌}
use poddoctor.Prelude.{
  String, Bool, true, false, ◌≡◌, ◌≢◌, inl, inr, refl, arith, ◌==◌, Bool-cases, if◌then◌else◌,
}
use poddoctor.Text.{Holds}
use poddoctor.Text.Laws.{ne_of_test, append-test_left, append-test_right, Holds-append_right}
use poddoctor.Diagnosis.{
  Evidence, Result, diagnose_exit_code, diagnose_terminated, diagnose_primary, add_rollout,
  prefer_probe, fill_summary, fill_confidence, lower_confidence, add_node_pressure, add_not_ready,
  diagnose,
}

-- A summary and a recommendation: a rule that matched gives both, none gives no summary.
data Filled : String → String → Type 0 where
  advised : {s t : String} → (s == "") ≡ false → (t == "") ≡ false → Filled s t
  silent : {s t : String} → (s == "") ≡ true → Filled s t

abbrev IsFilled : Result → Type 0
IsFilled r = Filled r.summary r.recommendation

if-IsFilled : (b : Bool) (x y : Result) → IsFilled x → IsFilled y → IsFilled (if b then x else y)
if-IsFilled true x y h k = h
if-IsFilled false x y h k = k

ruleset filled_rules = (if-IsFilled, advised, silent, append-test_left, append-test_right)

exit_code-IsFilled : (ev : Evidence) → IsFilled (diagnose_exit_code ev)
unfolding diagnose_exit_code
exit_code-IsFilled ev = search filled_rules depth 12

terminated-IsFilled : (ev : Evidence) → IsFilled (diagnose_terminated ev)
unfolding diagnose_terminated
terminated-IsFilled ev = search (filled_rules, exit_code-IsFilled) depth 12

primary-IsFilled : (ev : Evidence) → IsFilled (diagnose_primary ev)
unfolding diagnose_primary
primary-IsFilled ev = search (filled_rules, terminated-IsFilled) depth 12

add_rollout-IsFilled : (ev : Evidence) (r : Result) → IsFilled r → IsFilled (add_rollout ev r)
unfolding add_rollout
add_rollout-IsFilled ev r h = search filled_rules depth 12

prefer_probe-IsFilled : (ev : Evidence) (r : Result) → IsFilled r → IsFilled (prefer_probe ev r)
unfolding prefer_probe
prefer_probe-IsFilled ev r h = search filled_rules depth 12

-- Both texts are there.
abbrev IsAdvised : Result → Type 0
IsAdvised r = ((r.summary == "") ≡ false) × ((r.recommendation == "") ≡ false)

fill_summary-IsAdvised : (r : Result) → IsFilled r → IsAdvised (fill_summary r)
unfolding fill_summary
fill_summary-IsAdvised r h = elim (Bool-cases (r.summary == "")) [
  | inl e ↦ rw e (refl, refl)
  | inr e ↦ rw e (filled_advised h e)
]
  where
    filled_advised :
        {s t : String} → Filled s t → (s == "") ≡ false → ((s == "") ≡ false) × ((t == "") ≡ false)
    filled_advised (advised h k) e = (h, k)
    filled_advised (silent h) e = cc

confidence-IsAdvised :
    (ev : Evidence) (r : Result) → IsAdvised r → IsAdvised (lower_confidence ev (fill_confidence r))
unfolding lower_confidence fill_confidence
confidence-IsAdvised ev r h = ground arith

-- A text with something behind it, perhaps.
pub data Extends (s : String) : String → Type 0 where
  same : Extends s s
  longer : (t : String) → Extends s (s ++ t)

module _ (s : String) (b : Bool) (x y : Result) where
  if-summary-Extends :
      Extends s x.summary → Extends s y.summary → Extends s (if b then x else y).summary
  if-summary-Extends h k = elim b as (λ b. Extends s (if b then x else y).summary) [
    | true ↦ h
    | false ↦ k
  ]

  if-recommendation-Extends :
      Extends s x.recommendation
      → Extends s y.recommendation
      → Extends s (if b then x else y).recommendation
  if-recommendation-Extends h k = elim b as (λ b. Extends s (if b then x else y).recommendation) [
    | true ↦ h
    | false ↦ k
  ]

ruleset extends_rules = (if-summary-Extends, if-recommendation-Extends, same, longer)

-- The two steps about the node only add to both texts.
module _ (ev : Evidence) (r : Result) where
  pub summary-node_pressure : Extends r.summary (add_node_pressure ev r).summary
  unfolding add_node_pressure
  summary-node_pressure = search extends_rules

  recommendation-node_pressure : Extends r.recommendation (add_node_pressure ev r).recommendation
  unfolding add_node_pressure
  recommendation-node_pressure = search extends_rules

  pub summary-not_ready : Extends r.summary (add_not_ready ev r).summary
  unfolding add_not_ready
  summary-not_ready = search extends_rules

  recommendation-not_ready : Extends r.recommendation (add_not_ready ev r).recommendation
  unfolding add_not_ready
  recommendation-not_ready = search extends_rules

Extends-ne : {s t : String} → Extends s t → (s == "") ≡ false → (t == "") ≡ false
Extends-ne same h = h
Extends-ne {s} (longer t) h = append-test_left s t h

pub Extends-Holds : {s t : String} (u : String) → Extends s t → Holds s u → Holds t u
Extends-Holds u same h = h
Extends-Holds {s} u (longer t) h = Holds-append_right s t u h

-- Whatever the evidence, the summary and the recommendation of the diagnosis are not empty.
pub diagnose_advises :
    (ev : Evidence) → ((diagnose ev).summary ≢ "") × ((diagnose ev).recommendation ≢ "")
unfolding diagnose
diagnose_advises ev =
    let primary = primary-IsFilled ev in
    let ruled = prefer_probe-IsFilled ev _ (add_rollout-IsFilled ev _ primary) in
    let settled = confidence-IsAdvised ev _ (fill_summary-IsAdvised _ ruled) in
    let (h, k) = settled in
    (
      ne_of_test _ ""
          (Extends-ne (summary-not_ready ev _) (Extends-ne (summary-node_pressure ev _) h)),
      ne_of_test _ "" (
          Extends-ne (recommendation-not_ready ev _)
            (Extends-ne (recommendation-node_pressure ev _) k)),
    )
