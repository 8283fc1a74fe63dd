-- ===== src/Diagnosis/Precedence.antt =====
-- `Diagnose` reports the root cause that the signals give: the rollout and probe rules over the
-- primary ones.
use poddoctor.Prelude.{
  Bool, true, false, ◌≡◌, ◌≢◌, ◌↔◌, refl, sym, ◌∙◌, arith, if_elim, if◌then◌else◌, ◌&&◌,
}
use poddoctor.Api.{RootCause}
use poddoctor.Diagnosis.{
  Evidence, Result, probe_failing, diagnose_primary, is_unknown, probe_explains, add_rollout,
  prefer_probe, fill_summary, fill_confidence, lower_confidence, add_node_pressure, add_not_ready,
  diagnose,
}
use poddoctor.Diagnosis.Signals.{
  PrimaryCause, HasProbeFailure, Cause, rollout, unknown_probe, killed_probe, error_probe,
  unexplained, no_probe, specific,
}
use poddoctor.Diagnosis.Causes.{
  primary_sound, primary_complete, probe_failing_iff, not_of_false, false_of_not,
}

-- The root cause after the rollout and probe rules, from the primary one.
pub combine : (probe rolled : Bool) → RootCause → RootCause
combine probe rolled c =
    let c' : RootCause = if rolled && is_unknown c then RootCause.recent_rollout else c in
    if probe && probe_explains c' then RootCause.probe_failure else c'

rules_combine :
    (ev : Evidence) (r : Result)
    → (prefer_probe ev (add_rollout ev r)).root_cause
      ≡ combine (probe_failing ev.recent_events) ev.recent_rollout r.root_cause
unfolding prefer_probe add_rollout combine
rules_combine ev r = ground arith

-- The steps behind the probe rule leave the root cause alone.
pub steps_keep_cause :
    (ev : Evidence) (r : Result)
    → (add_not_ready ev
        (add_node_pressure ev (lower_confidence ev (fill_confidence (fill_summary r))))).root_cause
      ≡ r.root_cause
unfolding add_not_ready add_node_pressure lower_confidence fill_confidence fill_summary
steps_keep_cause ev r = ground arith

pub diagnose-combine :
    (ev : Evidence)
    → (diagnose ev).root_cause
      ≡ combine (probe_failing ev.recent_events) ev.recent_rollout (diagnose_primary ev).root_cause
unfolding diagnose
diagnose-combine ev = steps_keep_cause ev _ ∙ rules_combine ev (diagnose_primary ev)

pub combine_set :
    (probe rolled : Bool) (c : RootCause)
    → c ≢ RootCause.unset
    → combine probe rolled c ≢ RootCause.unset
unfolding combine
combine_set probe rolled c h = ground (arith, h)

combine_specific :
    (c : RootCause) (probe rolled : Bool) → probe_explains c ≡ false → combine probe rolled c ≡ c
unfolding combine
combine_specific c probe rolled h = ground arith

-- A kill and an application error are explained by a failing probe alone.
combine_explained :
    (c : RootCause) (probe rolled : Bool)
    → c ≢ RootCause.unknown
    → probe_explains c ≡ true
    → combine probe rolled c ≡ (if probe then RootCause.probe_failure else c)
unfolding combine
combine_explained c probe rolled n h = ground arith

combine_no_probe :
    (c : RootCause) (rolled : Bool) → c ≢ RootCause.unknown → combine false rolled c ≡ c
unfolding combine
combine_no_probe c rolled n = ground arith

combine_unknown :
    (probe rolled : Bool)
    → combine probe rolled RootCause.unknown ≡ (
        if rolled
        then RootCause.recent_rollout
        else if probe
        then RootCause.probe_failure
        else RootCause.unknown)
unfolding combine
combine_unknown probe rolled = ground arith

-- From the primary cause to the reported one.
module _ (ev : Evidence) where
  reported : RootCause → RootCause
  reported c = combine (probe_failing ev.recent_events) ev.recent_rollout c

  specific_sound :
      {c : RootCause} → PrimaryCause ev c → probe_explains c ≡ false → Cause ev (reported c)
  unfolding reported
  specific_sound p h = rw (combine_specific _ _ _ h) (specific p h)

  explained_sound :
      {c : RootCause}
      → PrimaryCause ev c
      → (HasProbeFailure ev → Cause ev RootCause.probe_failure)
      → c ≢ RootCause.unknown
      → probe_explains c ≡ true
      → Cause ev (reported c)
  unfolding reported
  explained_sound {c} p k n h =
      rw (combine_explained c (probe_failing ev.recent_events) ev.recent_rollout n h) (
        if_elim (Cause ev) (λ e. k ((probe_failing_iff ev).0 e))
          (λ e. no_probe p n (not_of_false (probe_failing_iff ev) e)))

  unknown_sound : PrimaryCause ev RootCause.unknown → Cause ev (reported RootCause.unknown)
  unfolding reported
  unknown_sound p = rw (combine_unknown (probe_failing ev.recent_events) ev.recent_rollout) (
      if_elim (Cause ev) (λ r. rollout p r)
        λ r.
          if_elim (Cause ev) (λ e. unknown_probe p r ((probe_failing_iff ev).0 e))
            λ e. unexplained p r (not_of_false (probe_failing_iff ev) e))

  reported_sound : (c : RootCause) → PrimaryCause ev c → Cause ev (reported c)
  reported_sound RootCause.unknown p = unknown_sound p
  reported_sound RootCause.signal_killed p = explained_sound p (killed_probe p) (ground arith) refl
  reported_sound RootCause.application_error p =
      explained_sound p (error_probe p) (ground arith) refl
  reported_sound RootCause.unset p = specific_sound p refl
  reported_sound c p = specific_sound p refl

  reported_complete : {c : RootCause} → Cause ev c → reported (diagnose_primary ev).root_cause ≡ c
  unfolding reported
  reported_complete (rollout p r) = simp (primary_complete ev p, combine_unknown, r)
  reported_complete (unknown_probe p r f) =
      simp (primary_complete ev p, combine_unknown, r, (probe_failing_iff ev).1 f)
  reported_complete (killed_probe p f) =
      simp (primary_complete ev p, (probe_failing_iff ev).1 f) (unfold combine in ground arith)
  reported_complete (error_probe p f) =
      simp (primary_complete ev p, (probe_failing_iff ev).1 f) (unfold combine in ground arith)
  reported_complete (unexplained p r n) =
      simp (primary_complete ev p, combine_unknown, r, false_of_not (probe_failing_iff ev) n)
  reported_complete (no_probe {c} p n f) =
      simp (primary_complete ev p, false_of_not (probe_failing_iff ev) f) (combine_no_probe _ _ n)
  reported_complete (specific p h) = simp (primary_complete ev p) (combine_specific _ _ _ h)

-- Diagnose reports a root cause exactly when the relation Cause, the documented precedence of
-- waiting reasons, termination reasons, exit codes, rollout and probe events, gives it.
pub diagnose-Cause : (ev : Evidence) (c : RootCause) → ((diagnose ev).root_cause ≡ c) ↔ Cause ev c
unfolding reported
diagnose-Cause ev c = (
  λ e. rw (sym e ∙ diagnose-combine ev) (reported_sound ev _ (primary_sound ev)),
  λ h. diagnose-combine ev ∙ reported_complete ev h,
)
