-- ===== src/Notify/Payload.antt =====
-- The payload of internal/notify/notify.go: what a notification says, and its JSON.
use Prim.Native.String.{◌++◌}
use poddoctor.Prelude.{ℕ, String, not, List, ◌==◌, map, is_empty, ℤ, pos, int_eq}
use poddoctor.Text.Utf8.{coerce}
use poddoctor.Text.{decimal}
use poddoctor.Api.{cause_name, confidence_name, EvidenceEvent, PodDiagnosis}
use poddoctor.Json.{Json, num, str, arr, obj, end, field, field_if, strings}

pub record Payload : Type 0 where
  pub cluster : String
  pub pod : String
  pub namespace : String
  pub container : String
  pub root_cause : String
  pub confidence : String
  pub summary : String
  pub recommendation : String
  pub suppressed_count : ℤ
  pub restarts : ℤ
  pub rollout_context : String
  pub log_excerpt : List ℕ
  pub recent_events : List String

pub record Notification : Type 0 where
  pub diag : PodDiagnosis
  pub cluster : String
  pub suppressed_count : ℤ

-- One event, as the notification and the dashboard print it.
unfoldable pub event_line : EvidenceEvent → String
event_line e = e.reason ++ (": " ++ (e.message ++ (" (x" ++ (decimal e.count ++ ")"))))

-- The payload that `Send` builds.
unfoldable pub payload_of : Notification → Payload
payload_of n = record {
  cluster = n.cluster;
  pod = n.diag.spec.pod_name;
  namespace = n.diag.spec.pod_namespace;
  container = n.diag.spec.container_name;
  root_cause = cause_name n.diag.status.root_cause;
  confidence = confidence_name n.diag.status.confidence;
  summary = n.diag.status.summary;
  recommendation = n.diag.status.recommendation;
  suppressed_count = n.suppressed_count;
  restarts = n.diag.status.restart_count;
  rollout_context = n.diag.status.rollout_context;
  log_excerpt = n.diag.status.log_excerpt;
  recent_events = map event_line n.diag.status.recent_events;
}

-- json.Marshal of a payload. `coerce` makes valid UTF-8 of the bytes of the log excerpt, as
-- encoding/json does; the other fields come from Kubernetes objects or constants and are valid.
unfoldable pub marshal : Payload → Json
unfolding field_if strings
marshal p = obj (
    field_if (not (p.cluster == "")) "cluster" (str p.cluster) (
      field "pod" (str p.pod) (
        field "namespace" (str p.namespace) (
          field "container" (str p.container) (
            field "rootCause" (str p.root_cause) (
              field "confidence" (str p.confidence) (
                field "summary" (str p.summary) (
                  field "recommendation" (str p.recommendation) (
                    field_if (not (int_eq p.suppressed_count (pos 0))) "suppressedCount"
                      (num p.suppressed_count)
                      (field_if (not (int_eq p.restarts (pos 0))) "restarts" (num p.restarts) (
                        field_if (not (p.rollout_context == "")) "rolloutContext"
                          (str p.rollout_context)
                          (field_if (not (is_empty p.log_excerpt)) "logExcerpt"
                            (str (coerce p.log_excerpt))
                            (field_if (not (is_empty p.recent_events)) "recentEvents"
                              (arr (strings p.recent_events)) end)))))))))))))
