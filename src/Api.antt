-- ===== src/Api.antt =====
-- api/v1alpha1/poddiagnosis_types.go: the PodDiagnosis resource. The named string types with fixed
-- values are data types; `unset` is their zero value, the empty string of an object whose status
-- was never written. Times are nanoseconds since the zero time of Go's `time.Time`, so that 0 is
-- the zero time; durations are signed.
pub mod Laws
pub mod DeepCopy
use poddoctor.Prelude.{
  ℕ, String, List, [], Option, none, ℤ, pos, negsuc, sub_ℕ, leb_ℤ, ◌^◌, ◌-◌, if◌then◌else◌,
}

abbrev pub Time : Type 0
Time = ℕ

abbrev pub Duration : Type 0
Duration = ℤ

-- The durations that 64 bits hold.
abbrev pub max_duration : Duration
max_duration = pos (2 ^ 63 - 1)

abbrev pub min_duration : Duration
min_duration = negsuc (2 ^ 63 - 1)

-- time.Time.Sub: what does not fit is the longest duration of that sign.
unfoldable pub sub : Time → Time → Duration
sub a b =
    let d = sub_ℕ a b in
    if leb_ℤ d min_duration then min_duration else if leb_ℤ max_duration d then max_duration else d

pub data RootCause : Type 0 where
  oom_killed image_pull_error bad_command seg_fault signal_killed : RootCause
  probe_failure recent_rollout application_error unknown : RootCause
  unset : RootCause

-- The string value of a root cause.
unfoldable pub cause_name : RootCause → String
cause_name RootCause.oom_killed = "OOMKilled"
cause_name RootCause.image_pull_error = "ImagePullError"
cause_name RootCause.bad_command = "BadCommand"
cause_name RootCause.seg_fault = "SegFault"
cause_name RootCause.signal_killed = "SignalKilled"
cause_name RootCause.probe_failure = "ProbeFailure"
cause_name RootCause.recent_rollout = "RecentRolloutRegression"
cause_name RootCause.application_error = "ApplicationError"
cause_name RootCause.unknown = "Unknown"
cause_name RootCause.unset = ""

pub data Confidence : Type 0 where
  high medium low : Confidence
  unset : Confidence

unfoldable pub confidence_name : Confidence → String
confidence_name Confidence.high = "High"
confidence_name Confidence.medium = "Medium"
confidence_name Confidence.low = "Low"
confidence_name Confidence.unset = ""

pub record PodDiagnosisSpec : Type 0 where
  pub pod_name : String
  pub pod_namespace : String
  pub container_name : String
  pub pod_uid : String

pub record EvidenceEvent : Type 0 where
  pub reason : String
  pub message : String
  pub count : ℤ
  pub last_timestamp : Time

pub record PodDiagnosisStatus : Type 0 where
  pub phase : String
  pub root_cause : RootCause
  pub confidence : Confidence
  pub summary : String
  pub recommendation : String
  pub exit_code : Option ℤ
  pub termination_reason : String
  pub restart_count : ℤ
  pub last_diagnosed_restart_count : ℤ
  pub recent_events : List EvidenceEvent
  pub log_excerpt : List ℕ
  pub rollout_context : String
  pub first_observed : Time
  pub last_observed : Time

-- The status of an object that was created and never diagnosed.
abbrev pub zero_status : PodDiagnosisStatus
zero_status = record {
  phase = "";
  root_cause = RootCause.unset;
  confidence = Confidence.unset;
  summary = "";
  recommendation = "";
  exit_code = none;
  termination_reason = "";
  restart_count = pos 0;
  last_diagnosed_restart_count = pos 0;
  recent_events = [];
  log_excerpt = [];
  rollout_context = "";
  first_observed = 0;
  last_observed = 0;
}

-- metav1.ObjectMeta as far as the program reads or writes it: `controller` is the UID of the
-- controlling owner reference.
pub record ObjectMeta : Type 0 where
  pub name : String
  pub namespace : String
  pub controller : Option String
  pub resource_version : ℕ

pub record PodDiagnosis : Type 0 where
  pub meta : ObjectMeta
  pub spec : PodDiagnosisSpec
  pub status : PodDiagnosisStatus
