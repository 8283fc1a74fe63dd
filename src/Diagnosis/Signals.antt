-- ===== src/Diagnosis/Signals.antt =====
-- The precedence of the signals that the engine documents (README.md, "Root Causes Detected", and
-- the comments of internal/diagnosis/rules.go), as relations between evidence and root causes.
use poddoctor.Prelude.{String, true, false, ◌≡◌, ◌≢◌, ◌⊎◌, ℤ, pos, Any, IsInfix}
use poddoctor.Text.{bytes, to_lower}
use poddoctor.Api.{EvidenceEvent, RootCause}
use poddoctor.Diagnosis.{Evidence, probe_explains}

abbrev pub IsPullReason : String → Type 0
IsPullReason r = ((r ≡ "ImagePullBackOff") ⊎ (r ≡ "ErrImagePull")) ⊎ (r ≡ "InvalidImageName")

-- The runtime failed before the process ran.
abbrev pub IsCreateReason : String → Type 0
IsCreateReason r = (r ≡ "CreateContainerError") ⊎ (r ≡ "CreateContainerConfigError")

abbrev pub IsStartWaiting : String → Type 0
IsStartWaiting r = (r ≡ "RunContainerError") ⊎ IsCreateReason r

abbrev pub IsStartTerminated : String → Type 0
IsStartTerminated r = (r ≡ "StartError") ⊎ IsCreateReason r

-- What an exit code alone says.
pub data ExitCause : ℤ → RootCause → Type 0 where
  killed : {c : ℤ} → c ≡ pos 137 → ExitCause c RootCause.oom_killed
  segv : {c : ℤ} → c ≡ pos 139 → ExitCause c RootCause.seg_fault
  term : {c : ℤ} → c ≡ pos 143 → ExitCause c RootCause.signal_killed
  command : {c : ℤ} → (c ≡ pos 126) ⊎ (c ≡ pos 127) → ExitCause c RootCause.bad_command
  clean : {c : ℤ} → c ≡ pos 0 → ExitCause c RootCause.unknown
  failed :
      {c : ℤ}
      → c ≢ pos 137
      → c ≢ pos 139
      → c ≢ pos 143
      → c ≢ pos 126
      → c ≢ pos 127
      → c ≢ pos 0
      → ExitCause c RootCause.application_error

-- What the state of the container says, the most specific signal first.
pub data PrimaryCause (ev : Evidence) : RootCause → Type 0 where
  pull : IsPullReason ev.waiting_reason → PrimaryCause ev RootCause.image_pull_error
  start : IsStartWaiting ev.waiting_reason → PrimaryCause ev RootCause.bad_command
  running :
      ¬ IsPullReason ev.waiting_reason
      → ¬ IsStartWaiting ev.waiting_reason
      → ev.has_terminated ≡ false
      → PrimaryCause ev RootCause.unknown
  oom :
      ¬ IsPullReason ev.waiting_reason
      → ¬ IsStartWaiting ev.waiting_reason
      → ev.has_terminated ≡ true
      → ev.terminated_reason ≡ "OOMKilled"
      → PrimaryCause ev RootCause.oom_killed
  start_error :
      ¬ IsPullReason ev.waiting_reason
      → ¬ IsStartWaiting ev.waiting_reason
      → ev.has_terminated ≡ true
      → IsStartTerminated ev.terminated_reason
      → PrimaryCause ev RootCause.bad_command
  exit :
      {c : RootCause}
      → ¬ IsPullReason ev.waiting_reason
      → ¬ IsStartWaiting ev.waiting_reason
      → ev.has_terminated ≡ true
      → ev.terminated_reason ≢ "OOMKilled"
      → ¬ IsStartTerminated ev.terminated_reason
      → ExitCause ev.exit_code c
      → PrimaryCause ev c

-- An event of a failing liveness or readiness probe.
abbrev pub IsProbeFailure : EvidenceEvent → Type 0
IsProbeFailure e =
    (e.reason ≡ "Unhealthy") × IsInfix (bytes "probe failed") (to_lower (bytes e.message))

abbrev pub HasProbeFailure : Evidence → Type 0
HasProbeFailure ev = Any IsProbeFailure ev.recent_events

-- A rollout explains what nothing else explains; a failing probe explains a kill, an application
-- error and, with no rollout, what nothing else explains.
pub data Cause (ev : Evidence) : RootCause → Type 0 where
  rollout :
      PrimaryCause ev RootCause.unknown
      → ev.recent_rollout ≡ true
      → Cause ev RootCause.recent_rollout
  unknown_probe :
      PrimaryCause ev RootCause.unknown
      → ev.recent_rollout ≡ false
      → HasProbeFailure ev
      → Cause ev RootCause.probe_failure
  killed_probe :
      PrimaryCause ev RootCause.signal_killed
      → HasProbeFailure ev
      → Cause ev RootCause.probe_failure
  error_probe :
      PrimaryCause ev RootCause.application_error
      → HasProbeFailure ev
      → Cause ev RootCause.probe_failure
  unexplained :
      PrimaryCause ev RootCause.unknown
      → ev.recent_rollout ≡ false
      → ¬ HasProbeFailure ev
      → Cause ev RootCause.unknown
  no_probe :
      {c : RootCause}
      → PrimaryCause ev c
      → c ≢ RootCause.unknown
      → ¬ HasProbeFailure ev
      → Cause ev c
  specific : {c : RootCause} → PrimaryCause ev c → probe_explains c ≡ false → Cause ev c
