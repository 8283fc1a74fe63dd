-- ===== src/Dashboard.antt =====
-- internal/dashboard/dashboard.go: the listing of the operator's own dashboard. Reading the cluster, the
-- sort (sort.Slice, which may order diagnoses of one time either way) and the format of times
-- are parameters.
pub mod Agree
mod Tests
use poddoctor.Text.Utf8.{coerce}
use poddoctor.Prelude.{
  ℕ, String, not, Option, none, some, List, ◌==◌, map, is_empty, nat_eq, ℤ, if◌then◌else◌,
}
use poddoctor.Api.{cause_name, confidence_name, PodDiagnosis}
use poddoctor.Json.{Json, num, str, arr, obj, end, field, field_if, strings}
use poddoctor.Severity.{severity_of}
use poddoctor.Tracelink.{Config, url}
use poddoctor.Notify.Payload.{event_line}
use poddoctor.Hub.Api.{Response, values, Stamp}

pub record ApiRecord : Type 0 where
  pub namespace : String
  pub pod : String
  pub container : String
  pub root_cause : String
  pub severity : String
  pub confidence : String
  pub restarts : ℤ
  pub summary : String
  pub recommendation : String
  pub rollout_context : String
  pub log_excerpt : List ℕ
  pub recent_events : List String
  pub last_observed : String
  pub traces_url : List ℕ

-- The record that the loop appends. `stamp` is the format time.RFC3339 here.
unfoldable pub dashboard_record : Config → Stamp → PodDiagnosis → ApiRecord
dashboard_record tracing stamp d = record {
  namespace = d.meta.namespace;
  pod = d.spec.pod_name;
  container = d.spec.container_name;
  root_cause = cause_name d.status.root_cause;
  severity = severity_of (cause_name d.status.root_cause);
  confidence = confidence_name d.status.confidence;
  restarts = d.status.restart_count;
  summary = d.status.summary;
  recommendation = d.status.recommendation;
  rollout_context = d.status.rollout_context;
  log_excerpt = d.status.log_excerpt;
  recent_events = map event_line d.status.recent_events;
  last_observed =
      if not (nat_eq d.status.last_observed 0) then stamp d.status.last_observed else "";
  traces_url = url tracing d.meta.namespace d.spec.pod_name;
}

-- Its JSON, by the tags of `apiRecord`.
unfoldable pub dashboard_json : Stamp → ApiRecord → Json
dashboard_json stamp r = obj (
    field "namespace" (str r.namespace) (
      field "pod" (str r.pod) (
        field "container" (str r.container) (
          field "rootCause" (str r.root_cause) (
            field "severity" (str r.severity) (
              field "confidence" (str r.confidence) (
                field "restarts" (num r.restarts) (
                  field "summary" (str r.summary) (
                    field "recommendation" (str r.recommendation) (
                      field_if (not (r.rollout_context == "")) "rolloutContext"
                        (str r.rollout_context)
                        (field_if (not (is_empty r.log_excerpt)) "logExcerpt"
                          (str (coerce r.log_excerpt))
                          (field_if (not (is_empty r.recent_events)) "recentEvents"
                            (arr (strings r.recent_events))
                            (field "lastObserved" (str r.last_observed) (
                              field_if (not (is_empty r.traces_url)) "tracesURL"
                                (str (coerce r.traces_url)) end))))))))))))))

-- What the handler reads and sorts with; a read is none where it fails.
pub record Reader (W : Type 0) : Type 0 where
  pub list : W → Option (List PodDiagnosis)
  pub newest_first : List PodDiagnosis → List PodDiagnosis

-- `handleAPIList`
unfoldable pub dashboard_list : {W : Type 0} → Reader W → Config → Stamp → W → Response
dashboard_list reader tracing stamp w = elim (reader.list w) [
  | none ↦ record { status = 500; body = none }
  | some items ↦ record {
    status = 200;
    body = some (
        arr (
          values (
            map (λ d. dashboard_json stamp (dashboard_record tracing stamp d))
              (reader.newest_first items))));
  }
]

-- `Handler`, by the path that the mux has cleaned; the embedded web UI is a parameter.
unfoldable pub handler :
    {W : Type 0} → Reader W → Config → Stamp → (String → Response) → String → W → Response
handler reader tracing stamp web_ui path w =
    if path == "/api/diagnoses" then dashboard_list reader tracing stamp w else web_ui path
