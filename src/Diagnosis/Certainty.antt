-- ===== src/Diagnosis/Certainty.antt =====
-- How sure a diagnosis is.
use poddoctor.Prelude.{
  String, true, List, [], ◌≡◌, ◌≢◌, ◌⊎◌, ◌↔◌, sym, ◌∙◌, arith, eq_iff, ◌==◌, Any, any_iff,
}
use poddoctor.Api.{RootCause, Confidence}
use poddoctor.Diagnosis.{
  Evidence, Result, fill_summary, fill_confidence, lower_confidence, add_node_pressure,
  add_not_ready, diagnose, contains_string,
}
use poddoctor.Diagnosis.Precedence.{steps_keep_cause}

-- Something besides the state of the container backs the diagnosis.
abbrev pub HasBacking : Evidence → Type 0
HasBacking ev = ((ev.recent_events ≢ []) ⊎ (ev.log_tail ≢ [])) ⊎ (ev.recent_rollout ≡ true)

lower_confidence-HasBacking :
    (ev : Evidence) (r : Result)
    → (lower_confidence ev r).confidence ≡ Confidence.medium
    → HasBacking ev
unfolding lower_confidence
lower_confidence-HasBacking ev r h = ground arith

node_steps-medium :
    (ev : Evidence) (r : Result)
    → (add_not_ready ev (add_node_pressure ev r)).confidence ≡ Confidence.medium
    → r.confidence ≡ Confidence.medium
unfolding add_not_ready add_node_pressure
node_steps-medium ev r h = ground arith

-- A diagnosis of medium confidence has events, log text or a recent rollout in its evidence.
pub medium-HasBacking :
    (ev : Evidence) → (diagnose ev).confidence ≡ Confidence.medium → HasBacking ev
unfolding diagnose
medium-HasBacking ev h = lower_confidence-HasBacking ev _ (node_steps-medium ev _ h)

node_steps-set :
    (ev : Evidence) (r : Result)
    → r.confidence ≢ Confidence.unset
    → (add_not_ready ev (add_node_pressure ev (lower_confidence ev r))).confidence
      ≢ Confidence.unset
unfolding add_not_ready add_node_pressure lower_confidence
node_steps-set ev r n h = ground arith

fill_confidence-set : (r : Result) → (fill_confidence r).confidence ≢ Confidence.unset
unfolding fill_confidence
fill_confidence-set r h = ground arith

-- The confidence is always one of the three documented values.
pub confidence_set : (ev : Evidence) → (diagnose ev).confidence ≢ Confidence.unset
unfolding diagnose
confidence_set ev = node_steps-set ev _ (fill_confidence-set _)

pub contains_string_iff :
    (vals : List String) (target : String)
    → (contains_string vals target ≡ true) ↔ Any (λ v. v ≡ target) vals
unfolding contains_string
contains_string_iff vals target =
    any_iff (λ v. v == target) (λ v. v ≡ target) (λ v. eq_iff v target) vals

pressure_raises :
    (ev : Evidence) (r : Result)
    → r.root_cause ≡ RootCause.oom_killed
    → contains_string ev.node_pressure_conditions "MemoryPressure" ≡ true
    → (add_not_ready ev (add_node_pressure ev r)).confidence ≡ Confidence.high
unfolding add_not_ready add_node_pressure contains_string
pressure_raises ev r h c = ground arith

-- The steps about confidence leave the root cause alone.
early_cause :
    (ev : Evidence) (r : Result)
    → r.root_cause ≡ (lower_confidence ev (fill_confidence (fill_summary r))).root_cause
unfolding lower_confidence fill_confidence fill_summary
early_cause ev r = ground arith

-- An OOM kill on a node under memory pressure is reported with high confidence.
pub oom_under_pressure :
    (ev : Evidence)
    → (diagnose ev).root_cause ≡ RootCause.oom_killed
    → Any (λ v. v ≡ "MemoryPressure") ev.node_pressure_conditions
    → (diagnose ev).confidence ≡ Confidence.high
unfolding diagnose
oom_under_pressure ev h m =
    pressure_raises ev _ (sym (early_cause ev _) ∙ (sym (steps_keep_cause ev _) ∙ h))
      ((contains_string_iff _ _).1 m)
