-- ===== src/Diagnosis/Settled.antt =====
-- The values of the schema that a diagnosis has (the markers of api/v1alpha1/poddiagnosis_types.go).
use poddoctor.Prelude.{String, List, [], ◌∷◌, ◌≡◌, ◌≢◌, inl, inr, refl, sym, ◌∙◌, arith, Any}
use poddoctor.Api.{RootCause, cause_name, Confidence, confidence_name}
use poddoctor.Diagnosis.{
  Evidence, Result, diagnose_exit_code, diagnose_terminated, diagnose_primary, fill_confidence,
  lower_confidence, add_node_pressure, add_not_ready, diagnose,
}
use poddoctor.Diagnosis.Precedence.{combine_set, diagnose-combine}

exit_code_set : (ev : Evidence) → (diagnose_exit_code ev).root_cause ≢ RootCause.unset
unfolding diagnose_exit_code
exit_code_set ev = ground arith

terminated_set : (ev : Evidence) → (diagnose_terminated ev).root_cause ≢ RootCause.unset
unfolding diagnose_terminated
terminated_set ev = ground (arith, exit_code_set ev)

primary_set : (ev : Evidence) → (diagnose_primary ev).root_cause ≢ RootCause.unset
unfolding diagnose_primary
primary_set ev = ground (arith, terminated_set ev)

cause_set : (ev : Evidence) → (diagnose ev).root_cause ≢ RootCause.unset
cause_set ev e = combine_set _ ev.recent_rollout _ (primary_set ev) (sym (diagnose-combine ev) ∙ e)

filled_set : (r : Result) → (fill_confidence r).confidence ≢ Confidence.unset
unfolding fill_confidence
filled_set r = ground arith

late_set :
    (ev : Evidence) (r : Result)
    → r.confidence ≢ Confidence.unset
    → (add_not_ready ev (add_node_pressure ev (lower_confidence ev r))).confidence
      ≢ Confidence.unset
unfolding add_not_ready add_node_pressure lower_confidence
late_set ev r h = ground (arith, h)

confidence_set : (ev : Evidence) → (diagnose ev).confidence ≢ Confidence.unset
unfolding diagnose
confidence_set ev = late_set ev _ (filled_set _)

-- The values that the schema lists.
abbrev causes : List String
causes =
    "OOMKilled" ∷ "ImagePullError" ∷ "BadCommand" ∷ "SegFault" ∷ "SignalKilled" ∷ "ProbeFailure"
    ∷ "RecentRolloutRegression" ∷ "ApplicationError" ∷ "Unknown" ∷ []

abbrev confidences : List String
confidences = "High" ∷ "Medium" ∷ "Low" ∷ []

abbrev pub IsCause : RootCause → Type 0
IsCause c = Any (λ s. cause_name c ≡ s) causes

abbrev pub IsConfidence : Confidence → Type 0
IsConfidence c = Any (λ s. confidence_name c ≡ s) confidences

name-IsCause : (c : RootCause) → c ≢ RootCause.unset → IsCause c
unfolding cause_name
name-IsCause RootCause.oom_killed h = inl refl
name-IsCause RootCause.image_pull_error h = inr (inl refl)
name-IsCause RootCause.bad_command h = inr (inr (inl refl))
name-IsCause RootCause.seg_fault h = inr (inr (inr (inl refl)))
name-IsCause RootCause.signal_killed h = inr (inr (inr (inr (inl refl))))
name-IsCause RootCause.probe_failure h = inr (inr (inr (inr (inr (inl refl)))))
name-IsCause RootCause.recent_rollout h = inr (inr (inr (inr (inr (inr (inl refl))))))
name-IsCause RootCause.application_error h = inr (inr (inr (inr (inr (inr (inr (inl refl)))))))
name-IsCause RootCause.unknown h = inr (inr (inr (inr (inr (inr (inr (inr (inl refl))))))))
name-IsCause RootCause.unset h = absurd (h refl)

name-IsConfidence : (c : Confidence) → c ≢ Confidence.unset → IsConfidence c
unfolding confidence_name
name-IsConfidence Confidence.high h = inl refl
name-IsConfidence Confidence.medium h = inr (inl refl)
name-IsConfidence Confidence.low h = inr (inr (inl refl))
name-IsConfidence Confidence.unset h = absurd (h refl)

-- Whatever the evidence.
pub diagnose-IsCause : (ev : Evidence) → IsCause (diagnose ev).root_cause
diagnose-IsCause ev = name-IsCause _ (cause_set ev)

pub diagnose-IsConfidence : (ev : Evidence) → IsConfidence (diagnose ev).confidence
diagnose-IsConfidence ev = name-IsConfidence _ (confidence_set ev)
