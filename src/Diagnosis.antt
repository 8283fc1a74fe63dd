-- ===== src/Diagnosis.antt =====
-- internal/diagnosis/rules.go: the rule engine, a pure function of the collected evidence.
pub mod Rules
pub mod Signals
mod Causes
pub mod Precedence
pub mod Summary
pub mod Notes
pub mod Certainty
pub mod Settled
mod Tests
use Prim.Native.String.{◌++◌}
use poddoctor.Prelude.{Bool, true, false, not, ◌&&◌, ◌==◌, is_empty, if◌then◌else◌}
use poddoctor.Text.{join}
use poddoctor.Api.{RootCause, Confidence}
pub use poddoctor.Diagnosis.Rules.{Evidence, Result, no_signature}
unfoldable pub use poddoctor.Diagnosis.Rules.{
  first_non_empty, contains_string, mentions, probe_event, probe_failing, diagnose_exit_code,
  diagnose_terminated, diagnose_primary,
}

abbrev pub is_unknown : RootCause → Bool
is_unknown RootCause.unknown = true
is_unknown _ = false

-- The three causes that a failing probe explains.
abbrev pub probe_explains : RootCause → Bool
probe_explains RootCause.signal_killed = true
probe_explains RootCause.application_error = true
probe_explains RootCause.unknown = true
probe_explains _ = false

abbrev is_oom_killed : RootCause → Bool
is_oom_killed RootCause.oom_killed = true
is_oom_killed _ = false

abbrev is_unset : Confidence → Bool
is_unset Confidence.unset = true
is_unset _ = false

abbrev is_medium : Confidence → Bool
is_medium Confidence.medium = true
is_medium _ = false

-- The steps of `Diagnose` after the primary rules, in order.
unfoldable pub add_rollout : Evidence → Result → Result
add_rollout ev res =
    if ev.recent_rollout
    then (if is_unknown res.root_cause
        then record {
          root_cause = RootCause.recent_rollout;
          confidence = Confidence.medium;
          summary =
              "No specific failure signature found, but the pod started shortly after a rollout. "
              ++ ev.rollout_context;
          recommendation =
              "This looks like a regression introduced by the latest rollout. Consider `kubectl rollout undo` and compare the previous and current image/config.";
        }
        else record res {
          summary = res.summary ++ (" Also: " ++ ev.rollout_context);
          recommendation =
              res.recommendation
              ++ " A recent rollout may be the trigger; consider `kubectl rollout undo` if this started right after a deploy.";
        })
    else res

unfoldable pub prefer_probe : Evidence → Result → Result
prefer_probe ev res =
    if probe_failing ev.recent_events && probe_explains res.root_cause
    then record {
      root_cause = RootCause.probe_failure;
      confidence = Confidence.high;
      summary =
          "Liveness/readiness probe is repeatedly failing, causing the kubelet to kill the container.";
      recommendation =
          "Check the probe path/port/timeout against the app's actual startup time. Increase initialDelaySeconds or periodSeconds, or fix the health endpoint.";
    }
    else res

unfoldable pub fill_summary : Result → Result
fill_summary res =
    if res.summary == ""
    then record res {
      summary = "No known failure signature matched this container's state.";
      recommendation =
          "Inspect the attached recent events and log excerpt manually; this failure pattern isn't yet covered by a rule.";
    }
    else res

unfoldable pub fill_confidence : Result → Result
fill_confidence res =
    if is_unset res.confidence then record res { confidence = Confidence.low } else res

unfoldable pub lower_confidence : Evidence → Result → Result
lower_confidence ev res =
    if is_empty ev.recent_events
      && is_empty ev.log_tail
      && not ev.recent_rollout
      && is_medium res.confidence
    then record res { confidence = Confidence.low }
    else res

unfoldable pub add_node_pressure : Evidence → Result → Result
add_node_pressure ev res =
    if not (is_empty ev.node_pressure_conditions)
    then (let noted : Result = record res {
      summary =
          res.summary
          ++ (" Also: the pod's node reports " ++ (join ev.node_pressure_conditions ", " ++ "."));
    } in
        if is_oom_killed res.root_cause
          && contains_string ev.node_pressure_conditions "MemoryPressure"
        then record noted {
          confidence = Confidence.high;
          recommendation =
              res.recommendation
              ++ " Node-level MemoryPressure detected — raising this pod's own limits may not help; check node allocatable memory and overall workload density first.";
        }
        else noted)
    else res

unfoldable pub add_not_ready : Evidence → Result → Result
add_not_ready ev res =
    if ev.node_not_ready
    then record res { summary = res.summary ++ " Also: the pod's node is currently NotReady." }
    else res

unfoldable pub diagnose : Evidence → Result
diagnose ev =
    let res = diagnose_primary ev in
    let res = add_rollout ev res in
    let res = prefer_probe ev res in
    let res = fill_summary res in
    let res = fill_confidence res in
    let res = lower_confidence ev res in let res = add_node_pressure ev res in add_not_ready ev res
