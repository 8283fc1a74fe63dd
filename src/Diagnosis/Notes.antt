-- ===== src/Diagnosis/Notes.antt =====
-- What the summary of a diagnosis notes besides the cause: the rollout and the state of the node.
use Prim.Native.String.{◌++◌}
use poddoctor.Prelude.{
  String, true, false, List, [], ◌∷◌, ◌≡◌, ◌≢◌, inl, inr, refl, sym, ◌∙◌, ap, arith, ◌==◌, All,
  All-mono, Bool-cases, is_empty,
}
use poddoctor.Text.{join, Holds}
use poddoctor.Text.Laws.{
  append-test_left, append-test_right, Holds-refl, Holds-append_left, Holds-append_right,
  join-Holds,
}
use poddoctor.Api.{RootCause}
use poddoctor.Diagnosis.{
  Evidence, Result, diagnose_primary, is_unknown, add_rollout, prefer_probe, fill_summary,
  fill_confidence, lower_confidence, add_node_pressure, add_not_ready, diagnose,
}
use poddoctor.Diagnosis.Summary.{Extends-Holds, summary-node_pressure, summary-not_ready}
use poddoctor.Diagnosis.Precedence.{steps_keep_cause}
use poddoctor.Diagnosis.Causes.{primary_sound, PrimaryCause-ne-probe}

summary_of_pressure :
    (ev : Evidence) (r : Result)
    → is_empty ev.node_pressure_conditions ≡ false
    → (add_node_pressure ev r).summary
      ≡ r.summary
        ++ (" Also: the pod's node reports " ++ (join ev.node_pressure_conditions ", " ++ "."))
unfolding add_node_pressure
summary_of_pressure ev r h = ground arith

pressure-Holds :
    (ev : Evidence) (r : Result) (conds : List String)
    → ev.node_pressure_conditions ≡ conds
    → All (Holds (add_node_pressure ev r).summary) conds
pressure-Holds ev r [] e = tt
pressure-Holds ev r (c ∷ cs) e =
    All-mono _ _
      (λ u h.
        rw (summary_of_pressure ev r (ap is_empty e), e)
          (Holds-append_left r.summary _ u (
            Holds-append_left " Also: the pod's node reports " _ u (Holds-append_right _ "." u h))))
      (c ∷ cs) (join-Holds ", " (c ∷ cs))

-- The steps about confidence leave the texts alone.
confidence-summary :
    (ev : Evidence) (r : Result) → (lower_confidence ev (fill_confidence r)).summary ≡ r.summary
unfolding lower_confidence fill_confidence
confidence-summary ev r = ground arith

-- What the summary holds before the last two steps, it holds after them.
last_steps-Holds :
    (ev : Evidence) (r : Result) (u : String)
    → Holds r.summary u
    → Holds
        (add_not_ready ev (add_node_pressure ev (lower_confidence ev (fill_confidence r)))).summary
        u
last_steps-Holds ev r u h =
    Extends-Holds u (summary-not_ready ev _)
      (Extends-Holds u (summary-node_pressure ev _) (rw confidence-summary h))

-- Every abnormal node condition of the evidence stands in the summary.
diagnose_notes_pressure :
    (ev : Evidence) → All (Holds (diagnose ev).summary) ev.node_pressure_conditions
unfolding diagnose
diagnose_notes_pressure ev =
    All-mono _ _ (λ u h. Extends-Holds u (summary-not_ready ev _) h) ev.node_pressure_conditions
      (pressure-Holds ev _ ev.node_pressure_conditions refl)

fill_summary_same : (r : Result) → (r.summary == "") ≡ false → fill_summary r ≡ r
unfolding fill_summary
fill_summary_same r h = rw h

add_rollout-Holds :
    (ev : Evidence) (r : Result)
    → ev.recent_rollout ≡ true
    → Holds (add_rollout ev r).summary ev.rollout_context
      × (((add_rollout ev r).summary == "") ≡ false)
unfolding add_rollout
add_rollout-Holds ev r e = elim (Bool-cases (is_unknown r.root_cause)) [
  | inl u ↦ rw (e, u) (Holds-append_left _ _ _ (Holds-refl _), append-test_left _ _ refl)
  | inr k ↦
      rw (e, k)
        (
          Holds-append_left r.summary _ _ (Holds-append_left " Also: " _ _ (Holds-refl _)),
          append-test_right r.summary _ (append-test_left " Also: " _ refl),
        )
]

prefer_probe_same :
    (ev : Evidence) (r : Result)
    → (prefer_probe ev r).root_cause ≢ RootCause.probe_failure
    → prefer_probe ev r ≡ r
unfolding prefer_probe
prefer_probe_same ev r n = ground arith

-- When the evidence has a recent rollout and the reported cause is not a probe failure, the
-- rollout context stands in the summary.
diagnose_notes_rollout :
    (ev : Evidence)
    → ev.recent_rollout ≡ true
    → (diagnose ev).root_cause ≢ RootCause.probe_failure
    → Holds (diagnose ev).summary ev.rollout_context
unfolding diagnose
diagnose_notes_rollout ev e n =
    let ruled = add_rollout ev (diagnose_primary ev) in
    let (noted, nonempty) = add_rollout-Holds ev (diagnose_primary ev) e in
    let same = prefer_probe_same ev ruled (λ p. n (steps_keep_cause ev _ ∙ p)) in
    last_steps-Holds ev _ ev.rollout_context (rw (same, fill_summary_same ruled nonempty) noted)

abbrev pub probe_summary : String
probe_summary =
    "Liveness/readiness probe is repeatedly failing, causing the kubelet to kill the container."

probe_result :
    (ev : Evidence) (r : Result)
    → (add_rollout ev r).root_cause ≢ RootCause.probe_failure
    → (prefer_probe ev (add_rollout ev r)).root_cause ≡ RootCause.probe_failure
    → (prefer_probe ev (add_rollout ev r)).summary ≡ probe_summary
unfolding prefer_probe
probe_result ev r n h = ground arith

-- No rule but the probe rule reports a probe failure.
add_rollout-ne-probe :
    (ev : Evidence) (r : Result)
    → r.root_cause ≢ RootCause.probe_failure
    → (add_rollout ev r).root_cause ≢ RootCause.probe_failure
unfolding add_rollout
add_rollout-ne-probe ev r n h = ground arith

last_steps_quiet :
    (ev : Evidence) (r : Result)
    → ev.node_pressure_conditions ≡ []
    → ev.node_not_ready ≡ false
    → r.summary ≡ probe_summary
    → (add_not_ready ev
        (add_node_pressure ev (lower_confidence ev (fill_confidence (fill_summary r))))).summary
      ≡ probe_summary
unfolding add_not_ready add_node_pressure lower_confidence fill_confidence fill_summary
last_steps_quiet ev r p q e =
    rw (p, q)
      (confidence-summary ev _
        ∙ (ap (λ (x : Result). x.summary) (fill_summary_same r (rw e refl)) ∙ e))

-- When the reported cause is a probe failure and the node is healthy, the summary is the fixed
-- probe text, whatever the rollout.
pub probe_drops_rollout :
    (ev : Evidence)
    → (diagnose ev).root_cause ≡ RootCause.probe_failure
    → ev.node_pressure_conditions ≡ []
    → ev.node_not_ready ≡ false
    → (diagnose ev).summary ≡ probe_summary
unfolding diagnose
probe_drops_rollout ev h p q = last_steps_quiet ev _ p q (
    probe_result ev (diagnose_primary ev)
      (add_rollout-ne-probe ev _ (PrimaryCause-ne-probe (primary_sound ev)))
      (sym (steps_keep_cause ev _) ∙ h))
