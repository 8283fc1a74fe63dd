-- ===== src/Diagnosis/Tests.antt =====
-- The engine on concrete evidence, and its theorems there.
use poddoctor.Prelude.{true, false, [], ◌∷◌, ◌≡◌, ◌↔◌, refl, pos}
use poddoctor.Text.{bytes, to_lower, decimal, join}
use poddoctor.Api.{RootCause, Confidence, EvidenceEvent}
use poddoctor.Diagnosis.{
  Evidence, Result, first_non_empty, contains_string, mentions, probe_event, probe_failing,
  diagnose_exit_code, diagnose_terminated, diagnose_primary, add_rollout, prefer_probe,
  fill_summary, fill_confidence, lower_confidence, add_node_pressure, add_not_ready, diagnose,
}
use poddoctor.Diagnosis.Signals.{Cause}
use poddoctor.Diagnosis.Precedence.{diagnose-Cause}
use poddoctor.Diagnosis.Notes.{probe_drops_rollout, probe_summary}
use poddoctor.Prelude.{contains}

-- A container that exited with code 1 and left nothing else.
abbrev failed : Evidence
failed = record {
  waiting_reason = "CrashLoopBackOff";
  waiting_message = "";
  has_terminated = true;
  terminated_reason = "Error";
  terminated_message = "";
  exit_code = pos 1;
  restart_count = pos 3;
  recent_events = [];
  log_tail = [];
  recent_rollout = false;
  rollout_context = "";
  node_pressure_conditions = [];
  node_not_ready = false;
}

abbrev probe_event_seen : EvidenceEvent
probe_event_seen = record {
  reason = "Unhealthy";
  message = "Liveness Probe Failed: HTTP 500";
  count = pos 4;
  last_timestamp = 10;
}

-- The same with a failing probe and a recent rollout.
abbrev probed : Evidence
probed = record failed {
  recent_events = probe_event_seen ∷ [];
  recent_rollout = true;
  rollout_context = "pod started 10s after a rollout";
}

-- The same with logs.
abbrev logged : Evidence
logged = record failed {
  log_tail = bytes "panic";
  recent_rollout = true;
  rollout_context = "pod started 10s after a rollout";
}

-- Killed for its memory, on a node under pressure.
abbrev squeezed : Evidence
squeezed = record failed {
  exit_code = pos 137;
  node_pressure_conditions = "DiskPressure" ∷ "MemoryPressure" ∷ [];
}

-- Opens every step of the engine.
run : Evidence → Result
unfolding diagnose diagnose_primary diagnose_terminated diagnose_exit_code first_non_empty
    add_rollout prefer_probe probe_failing probe_event mentions fill_summary fill_confidence
    lower_confidence add_node_pressure add_not_ready contains_string decimal bytes to_lower join
    contains
run ev = diagnose ev

failed_result : diagnose failed ≡ record {
  root_cause = RootCause.application_error;
  confidence = Confidence.low;
  summary = "Container process exited with code 1.";
  recommendation =
      "Inspect the attached log excerpt for the application-level error that caused the exit.";
}
unfolding run
failed_result = refl

probed_cause : (diagnose probed).root_cause ≡ RootCause.probe_failure
unfolding run
probed_cause = refl

logged_result :
    ((diagnose logged).root_cause ≡ RootCause.application_error)
    × ((diagnose logged).confidence ≡ Confidence.medium)
unfolding run
logged_result = (refl, refl)

squeezed_cause : (diagnose squeezed).root_cause ≡ RootCause.oom_killed
unfolding run
squeezed_cause = refl

diagnose-Cause_example :
    ((diagnose probed).root_cause ≡ RootCause.probe_failure) ↔ Cause probed RootCause.probe_failure
diagnose-Cause_example = diagnose-Cause probed RootCause.probe_failure

probe_drops_rollout_example : (diagnose probed).summary ≡ probe_summary
probe_drops_rollout_example = probe_drops_rollout probed probed_cause refl refl
