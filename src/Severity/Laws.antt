-- ===== src/Severity/Laws.antt =====
-- Severities of the root causes that the engine reports.
use poddoctor.Prelude.{String, ◌≡◌, ◌⊎◌, ◌↔◌, inl, inr, refl, sym, ap, ◌∙◌, arith, eq_iff}
use poddoctor.Api.{RootCause, cause_name}
use poddoctor.Text.Laws.{ne_of_test}
use poddoctor.Severity.{severity_of}

-- The bucket that the engine's causes belong to.
abbrev pub bucket : RootCause → String
bucket RootCause.oom_killed = "critical"
bucket RootCause.seg_fault = "critical"
bucket RootCause.image_pull_error = "high"
bucket RootCause.bad_command = "high"
bucket RootCause.probe_failure = "high"
bucket RootCause.signal_killed = "medium"
bucket RootCause.recent_rollout = "medium"
bucket RootCause.application_error = "medium"
bucket RootCause.unknown = "unknown"
bucket RootCause.unset = "unknown"

-- Every root cause falls in its bucket by name, and a text that names none is unknown.
pub severity_of-cause_name : (c : RootCause) → severity_of (cause_name c) ≡ bucket c
unfolding severity_of cause_name
severity_of-cause_name RootCause.oom_killed = refl
severity_of-cause_name _ = refl

bucket_unknown :
    (c : RootCause) → bucket c ≡ "unknown" → (c ≡ RootCause.unknown) ⊎ (c ≡ RootCause.unset)
bucket_unknown RootCause.unknown e = inl refl
bucket_unknown RootCause.unset e = inr refl
bucket_unknown RootCause.oom_killed e = absurd (ne_of_test "critical" "unknown" refl e)
bucket_unknown RootCause.seg_fault e = absurd (ne_of_test "critical" "unknown" refl e)
bucket_unknown RootCause.image_pull_error e = absurd (ne_of_test "high" "unknown" refl e)
bucket_unknown RootCause.bad_command e = absurd (ne_of_test "high" "unknown" refl e)
bucket_unknown RootCause.probe_failure e = absurd (ne_of_test "high" "unknown" refl e)
bucket_unknown _ e = absurd (ne_of_test "medium" "unknown" refl e)

unknown_of_no_cause :
    (s : String)
    → ((c : RootCause) → s ≡ cause_name c → (c ≡ RootCause.unknown) ⊎ (c ≡ RootCause.unset))
    → severity_of s ≡ "unknown"
unfolding severity_of cause_name
unknown_of_no_cause s f = ground (
  arith,
  eq_iff s "OOMKilled",
  eq_iff s "SegFault",
  eq_iff s "ImagePullError",
  eq_iff s "BadCommand",
  eq_iff s "ProbeFailure",
  eq_iff s "SignalKilled",
  eq_iff s "RecentRolloutRegression",
  eq_iff s "ApplicationError",
  f RootCause.oom_killed,
  f RootCause.seg_fault,
  f RootCause.image_pull_error,
  f RootCause.bad_command,
  f RootCause.probe_failure,
  f RootCause.signal_killed,
  f RootCause.recent_rollout,
  f RootCause.application_error,
)

-- A text has unknown severity exactly when it is the name of no root cause but Unknown and the
-- zero value.
pub severity_unknown_iff :
    (s : String)
    → (severity_of s ≡ "unknown")
      ↔ ((c : RootCause) → s ≡ cause_name c → (c ≡ RootCause.unknown) ⊎ (c ≡ RootCause.unset))
severity_unknown_iff s = (
  λ h c e. bucket_unknown c (sym (severity_of-cause_name c) ∙ (ap severity_of (sym e) ∙ h)),
  unknown_of_no_cause s,
)
