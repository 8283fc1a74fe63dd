-- ===== src/Api/Laws.antt =====
-- The enumerations of the resource have distinct names.
use poddoctor.Prelude.{String, ◌≡◌, refl, sym, ap, ◌∙◌, ◌==◌, if◌then◌else◌}
use poddoctor.Api.{RootCause, cause_name, Confidence, confidence_name}

-- The root cause with a given name.
cause_of : String → RootCause
cause_of s =
    if s == "OOMKilled"
    then RootCause.oom_killed
    else if s == "ImagePullError"
    then RootCause.image_pull_error
    else if s == "BadCommand"
    then RootCause.bad_command
    else if s == "SegFault"
    then RootCause.seg_fault
    else if s == "SignalKilled"
    then RootCause.signal_killed
    else if s == "ProbeFailure"
    then RootCause.probe_failure
    else if s == "RecentRolloutRegression"
    then RootCause.recent_rollout
    else if s == "ApplicationError"
    then RootCause.application_error
    else if s == "Unknown"
    then RootCause.unknown
    else RootCause.unset

cause_of-cause_name : (c : RootCause) → cause_of (cause_name c) ≡ c
unfolding cause_of cause_name
cause_of-cause_name RootCause.oom_killed = refl
cause_of-cause_name _ = refl

-- A name gives its root cause back.
pub cause_name-injective : (c d : RootCause) → cause_name c ≡ cause_name d → c ≡ d
cause_name-injective c d e = sym (cause_of-cause_name c) ∙ (ap cause_of e ∙ cause_of-cause_name d)

confidence_of : String → Confidence
confidence_of s =
    if s == "High"
    then Confidence.high
    else if s == "Medium"
    then Confidence.medium
    else if s == "Low"
    then Confidence.low
    else Confidence.unset

confidence_of-confidence_name : (c : Confidence) → confidence_of (confidence_name c) ≡ c
unfolding confidence_of confidence_name
confidence_of-confidence_name Confidence.high = refl
confidence_of-confidence_name _ = refl

-- So does the name of a confidence.
pub confidence_name-injective : (c d : Confidence) → confidence_name c ≡ confidence_name d → c ≡ d
confidence_name-injective c d e =
    sym (confidence_of-confidence_name c) ∙ (ap confidence_of e ∙ confidence_of-confidence_name d)
