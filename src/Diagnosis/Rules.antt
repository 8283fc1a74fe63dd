-- ===== src/Diagnosis/Rules.antt =====
-- internal/diagnosis/rules.go: the evidence, the result, and the rules that name the primary cause.
use Prim.Native.String.{◌++◌}
use poddoctor.Prelude.{
  ℕ, String, Bool, not, ◌&&◌, ◌||◌, List, ◌==◌, ℤ, pos, int_eq, contains, any, if◌then◌else◌,
}
use poddoctor.Text.{bytes, to_lower, decimal}
use poddoctor.Api.{EvidenceEvent, RootCause, Confidence}

-- What the controller gathered about one failing container.
pub record Evidence : Type 0 where
  pub waiting_reason : String
  pub waiting_message : String
  pub has_terminated : Bool
  pub terminated_reason : String
  pub terminated_message : String
  pub exit_code : ℤ
  pub restart_count : ℤ
  pub recent_events : List EvidenceEvent
  pub log_tail : List ℕ
  pub recent_rollout : Bool
  pub rollout_context : String
  pub node_pressure_conditions : List String
  pub node_not_ready : Bool

pub record Result : Type 0 where
  pub root_cause : RootCause
  pub confidence : Confidence
  pub summary : String
  pub recommendation : String

-- Both calls pass two values.
unfoldable pub first_non_empty : String → String → String
first_non_empty a b = if not (a == "") then a else if not (b == "") then b else ""

unfoldable pub contains_string : List String → String → Bool
contains_string vals target = any (λ v. v == target) vals

-- strings.Contains(strings.ToLower(text), needle)
unfoldable pub mentions : List ℕ → String → Bool
mentions text needle = contains (to_lower text) (bytes needle)

unfoldable pub probe_event : EvidenceEvent → Bool
probe_event e = e.reason == "Unhealthy" && mentions (bytes e.message) "probe failed"

unfoldable pub probe_failing : List EvidenceEvent → Bool
probe_failing events = any probe_event events

-- `Result{RootCause: Unknown}`: the other fields are zero.
abbrev pub no_signature : Result
no_signature = record {
  root_cause = RootCause.unknown;
  confidence = Confidence.unset;
  summary = "";
  recommendation = "";
}

abbrev bad_command : String → Result
bad_command reason = record {
  root_cause = RootCause.bad_command;
  confidence = Confidence.high;
  summary = "Container runtime failed to start the container: " ++ reason;
  recommendation =
      "Check the container's command/entrypoint against what's actually in the image (missing binary, bad permissions, or invalid working directory).";
}

-- The switch on the exit code.
unfoldable pub diagnose_exit_code : Evidence → Result
diagnose_exit_code ev =
    if int_eq ev.exit_code (pos 137)
    then record {
      root_cause = RootCause.oom_killed;
      confidence =
          if mentions ev.log_tail "out of memory" || mentions ev.log_tail "oom"
          then Confidence.high
          else Confidence.medium;
      summary =
          "Container exited with code 137 (SIGKILL), most commonly caused by an out-of-memory kill.";
      recommendation =
          "Check `kubectl describe pod` for an OOMKilled reason and raise resources.limits.memory if confirmed.";
    }
    else if int_eq ev.exit_code (pos 139)
    then record {
      root_cause = RootCause.seg_fault;
      confidence = Confidence.high;
      summary = "Container exited with code 139 (SIGSEGV) — a native crash inside the process.";
      recommendation =
          "Check for a corrupted binary, incompatible base image (e.g. glibc/musl mismatch), or a bug in native/CGo code.";
    }
    else if int_eq ev.exit_code (pos 143)
    then record {
      root_cause = RootCause.signal_killed;
      confidence = Confidence.medium;
      summary = "Container exited with code 143 (SIGTERM) — it was asked to stop.";
      recommendation =
          "Check for node pressure/eviction, a failing liveness probe, or terminationGracePeriodSeconds too short for a clean shutdown.";
    }
    else if int_eq ev.exit_code (pos 126)
    then record {
      root_cause = RootCause.bad_command;
      confidence = Confidence.high;
      summary = "Container exited with code 126 — the command was found but is not executable.";
      recommendation =
          "Check file permissions on the entrypoint script/binary in the image (missing chmod +x).";
    }
    else if int_eq ev.exit_code (pos 127)
    then record {
      root_cause = RootCause.bad_command;
      confidence = Confidence.high;
      summary = "Container exited with code 127 — the command was not found.";
      recommendation =
          "Check the container's command/entrypoint and that the binary exists in the image (common after a slim/distroless base image switch).";
    }
    else if int_eq ev.exit_code (pos 0)
    then no_signature
    else record {
      root_cause = RootCause.application_error;
      confidence = Confidence.medium;
      summary = "Container process exited with code " ++ (decimal ev.exit_code ++ ".");
      recommendation =
          "Inspect the attached log excerpt for the application-level error that caused the exit.";
    }

-- The part of `diagnosePrimary` behind its first switch.
unfoldable pub diagnose_terminated : Evidence → Result
diagnose_terminated ev =
    if not ev.has_terminated
    then no_signature
    else if ev.terminated_reason == "OOMKilled"
    then record {
      root_cause = RootCause.oom_killed;
      confidence = Confidence.high;
      summary = "Container exceeded its memory limit and was killed by the kernel OOM killer.";
      recommendation =
          "Raise resources.limits.memory, or investigate a possible memory leak in the application.";
    }
    else if ev.terminated_reason == "StartError"
        || ev.terminated_reason == "CreateContainerError"
        || ev.terminated_reason == "CreateContainerConfigError"
    then bad_command (first_non_empty ev.terminated_message ev.terminated_reason)
    else diagnose_exit_code ev

unfoldable pub diagnose_primary : Evidence → Result
diagnose_primary ev =
    if ev.waiting_reason == "ImagePullBackOff" || ev.waiting_reason == "ErrImagePull"
    then record {
      root_cause = RootCause.image_pull_error;
      confidence = Confidence.high;
      summary =
          "Container image cannot be pulled: "
          ++ first_non_empty ev.waiting_message ev.waiting_reason;
      recommendation =
          "Verify the image name and tag exist in the registry, and that imagePullSecrets grants access to it from this cluster.";
    }
    else if ev.waiting_reason == "InvalidImageName"
    then record {
      root_cause = RootCause.image_pull_error;
      confidence = Confidence.high;
      summary =
          "Container image reference is invalid: "
          ++ first_non_empty ev.waiting_message ev.waiting_reason;
      recommendation =
          "Fix the image field in the pod spec (typo, missing registry, or invalid tag).";
    }
    else if ev.waiting_reason == "RunContainerError"
        || ev.waiting_reason == "CreateContainerError"
        || ev.waiting_reason == "CreateContainerConfigError"
    then bad_command (first_non_empty ev.waiting_message ev.terminated_message)
    else diagnose_terminated ev
