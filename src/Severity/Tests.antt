-- ===== src/Severity/Tests.antt =====
-- Severities of concrete names.
use poddoctor.Prelude.{◌≡◌, ◌⊎◌, ◌↔◌, refl}
use poddoctor.Api.{RootCause, cause_name}
use poddoctor.Severity.{severity_of}
use poddoctor.Severity.Laws.{severity_of-cause_name, severity_unknown_iff}

evicted : severity_of "Evicted" ≡ "unknown"
unfolding severity_of
evicted = refl

severity_of-cause_name_example : severity_of (cause_name RootCause.seg_fault) ≡ "critical"
severity_of-cause_name_example = severity_of-cause_name RootCause.seg_fault

severity_unknown_iff_example :
    (severity_of "Evicted" ≡ "unknown")
    ↔ ((c : RootCause) → "Evicted" ≡ cause_name c → (c ≡ RootCause.unknown) ⊎ (c ≡ RootCause.unset))
severity_unknown_iff_example = severity_unknown_iff "Evicted"
