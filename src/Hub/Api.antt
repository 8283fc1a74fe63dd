-- ===== src/Hub/Api.antt =====
-- The listing endpoint and the routes of internal/hub/server.go. A request is read with its path,
-- which the mux has cleaned, and its query parameters; the embedded web UI is a parameter.
use poddoctor.Prelude.{
  ℕ, String, not, Option, none, some, List, [], ◌∷◌, ◌==◌, map, is_empty, if◌then◌else◌,
}
use poddoctor.Text.Utf8.{coerce}
use poddoctor.Text.{bytes}
use poddoctor.Text.Number.{atoi}
use poddoctor.Api.{Time}
use poddoctor.Json.{Json, num, str, arr, obj, Items, nil, cons, end, field, field_if, strings}
use poddoctor.Severity.{severity_of}
use poddoctor.Tracelink.{Config, url}
use poddoctor.Notify.Send.{Request}
use poddoctor.Hub.Store.{Diagnosis, Filter, DiagnosisStore}
use poddoctor.Hub.Server.{Handler, authenticated, handle_healthz, handle_readyz, handle_ingest}

-- url.Values.Get: the first value of a key, or the empty text.
unfoldable pub get : List (String × String) → String → String
get [] key = ""
get ((k, v) ∷ rest) key = if k == key then v else get rest key

unfoldable pub filter_from_query : List (String × String) → Filter
unfolding get
filter_from_query q = record {
  cluster = get q "cluster";
  namespace = get q "namespace";
  root_cause = get q "rootCause";
  limit = atoi (bytes (get q "limit"));
}

pub record ApiRecord : Type 0 where
  pub diagnosis : Diagnosis
  pub severity : String
  pub traces_url : List ℕ

-- The record that the loop of `handleAPIList` appends.
unfoldable pub api_record : Config → Diagnosis → ApiRecord
api_record tracing d = record {
  diagnosis = d;
  severity = severity_of d.root_cause;
  traces_url = url tracing d.namespace d.pod;
}

-- The text of a time.
abbrev pub Stamp : Type 0
Stamp = Time → String

-- The JSON of a record, by the tags of `apiRecord` and of the embedded `Diagnosis`.
unfoldable pub api_json : Stamp → ApiRecord → Json
api_json stamp r =
    let d = r.diagnosis in
    obj (
      field "id" (num d.id) (
        field "cluster" (str d.cluster) (
          field "namespace" (str d.namespace) (
            field "pod" (str d.pod) (
              field "container" (str d.container) (
                field "rootCause" (str d.root_cause) (
                  field "confidence" (str d.confidence) (
                    field "summary" (str d.summary) (
                      field "recommendation" (str d.recommendation) (
                        field "suppressedCount" (num d.suppressed_count) (
                          field "restarts" (num d.restarts) (
                            field_if (not (d.rollout_context == "")) "rolloutContext"
                              (str d.rollout_context)
                              (field_if (not (is_empty d.log_excerpt)) "logExcerpt"
                                (str (coerce d.log_excerpt))
                                (field_if (not (is_empty d.recent_events)) "recentEvents"
                                  (arr (strings d.recent_events))
                                  (field "receivedAt" (str (stamp d.received_at)) (
                                    field "severity" (str r.severity) (
                                      field_if (not (is_empty r.traces_url)) "tracesURL"
                                        (str (coerce r.traces_url)) end)))))))))))))))))

unfoldable pub values : List Json → Items
values [] = nil
values (v ∷ rest) = cons v (values rest)

pub record Response : Type 0 where
  pub status : ℕ
  pub body : Option Json

-- The body of `handleAPIList` once the rows are read.
unfoldable pub list_response : Config → Stamp → Option (List Diagnosis) → Response
unfolding values
list_response tracing stamp none = record { status = 500; body = none }
list_response tracing stamp (some rows) = record {
  status = 200;
  body = some (arr (values (map (λ d. api_json stamp (api_record tracing d)) rows)));
}

pub record Server (W : Type 0) : Type 0 where
  pub store : DiagnosisStore W
  pub token : String
  pub tracing : Config
  pub stamp : Stamp
  pub web_ui : String → Request → Response

-- `NewServer`
abbrev pub new_server :
    {W : Type 0}
    → DiagnosisStore W
    → String
    → Config
    → Stamp
    → (String → Request → Response)
    → Server W
new_server store token tracing stamp web_ui = record {
  store = store;
  token = token;
  tracing = tracing;
  stamp = stamp;
  web_ui = web_ui;
}

-- A request with the parts of its URL that the mux and the handlers read.
pub record Call : Type 0 where
  pub path : String
  pub query : List (String × String)
  pub request : Request

abbrev pub status_only : ℕ → Response
status_only code = record { status = code; body = none }

abbrev pub with_status : {W : Type 0} → ℕ × W → Response × W
with_status (code, w) = (status_only code, w)

module _ {W : Type 0} (server : Server W) where
  unfoldable pub handle_api_list : List (String × String) → Handler Response W
  handle_api_list q r w =
      let (rows, w') = server.store.list (filter_from_query q) w in
      (list_response server.tracing server.stamp rows, w')

  abbrev guarded : Handler Response W → Handler Response W
  guarded = authenticated (status_only 401) server.token

  -- `Routes`
  unfoldable pub routes : Call → W → Response × W
  routes call w =
      if call.path == "/healthz"
      then with_status (handle_healthz call.request w)
      else if call.path == "/readyz"
      then with_status (handle_readyz server.store call.request w)
      else if call.path == "/ingest"
      then guarded (λ r v. with_status (handle_ingest server.store r v)) call.request w
      else if call.path == "/api/diagnoses"
      then guarded (handle_api_list call.query) call.request w
      else guarded (λ r v. (server.web_ui call.path r, v)) call.request w
