-- ===== src/Hub/Server.antt =====
-- internal/hub/server.go: the bearer token and the ingest endpoint. A handler is a function of the
-- request and the store's world; it answers with a status code. (The text that http.Error adds for a
-- person to read is left out.)
use Prim.Native.String.{len, slice}
use poddoctor.Prelude.{ℕ, String, not, Option, none, some, List, [], ◌==◌, ◌||◌, pos, if◌then◌else◌}
use text.Mathlib.Text.{starts_with}
use poddoctor.Text.{bytes}
use poddoctor.Json.{
  Json, null, str, obj, Fields, end, field, names, get_string, get_int, get_strings,
}
use poddoctor.Notify.Payload.{Payload}
use poddoctor.Notify.Send.{Request}
use poddoctor.Hub.Store.{Diagnosis, DiagnosisStore}

-- A handler that answers with an `A`; of most handlers only the status code is modelled.
abbrev pub Handler : Type 0 → Type 0 → Type 0
Handler A W = Request → W → A × W

-- strings.TrimPrefix
unfoldable pub trim_prefix : String → String → String
trim_prefix s prefix = if starts_with s prefix then slice s (len prefix) (len s) else s

-- `authenticated`, with the answer for status 401; ConstantTimeCompare is 1 exactly for equal texts.
unfoldable pub authenticated : {A W : Type 0} → A → String → Handler A W → Handler A W
authenticated unauthorized token next r w =
    if token == ""
    then next r w
    else if trim_prefix r.authorization "Bearer " == token
    then next r w
    else (unauthorized, w)

abbrev pub zero_payload : Payload
zero_payload = record {
  cluster = "";
  pod = "";
  namespace = "";
  container = "";
  root_cause = "";
  confidence = "";
  summary = "";
  recommendation = "";
  suppressed_count = pos 0;
  restarts = pos 0;
  rollout_context = "";
  log_excerpt = [];
  recent_events = [];
}

-- One field of the body into the payload, by the `json` tags of `Payload`.
abbrev set_log : Json → List ℕ → Option (List ℕ)
set_log null old = some old
set_log (str s) old = some (bytes s)
set_log _ old = none

abbrev pub then_set : {A : Type 0} → Option A → (A → Payload) → Option Payload
then_set none f = none
then_set (some a) f = some (f a)

unfoldable pub set_field : String → Json → Payload → Option Payload
unfolding get_string get_int get_strings
set_field key v p =
    if names key "cluster"
    then then_set (get_string v p.cluster) (λ s. record p { cluster = s })
    else if names key "pod"
    then then_set (get_string v p.pod) (λ s. record p { pod = s })
    else if names key "namespace"
    then then_set (get_string v p.namespace) (λ s. record p { namespace = s })
    else if names key "container"
    then then_set (get_string v p.container) (λ s. record p { container = s })
    else if names key "rootCause"
    then then_set (get_string v p.root_cause) (λ s. record p { root_cause = s })
    else if names key "confidence"
    then then_set (get_string v p.confidence) (λ s. record p { confidence = s })
    else if names key "summary"
    then then_set (get_string v p.summary) (λ s. record p { summary = s })
    else if names key "recommendation"
    then then_set (get_string v p.recommendation) (λ s. record p { recommendation = s })
    else if names key "suppressedCount"
    then then_set (get_int 64 v p.suppressed_count) (λ n. record p { suppressed_count = n })
    else if names key "restarts"
    then then_set (get_int 32 v p.restarts) (λ n. record p { restarts = n })
    else if names key "rolloutContext"
    then then_set (get_string v p.rollout_context) (λ s. record p { rollout_context = s })
    else if names key "logExcerpt"
    then then_set (set_log v p.log_excerpt) (λ s. record p { log_excerpt = s })
    else if names key "recentEvents"
    then then_set (get_strings v p.recent_events) (λ ss. record p { recent_events = ss })
    else some p

unfoldable pub decode_fields : Fields → Payload → Option Payload
decode_fields end p = some p
decode_fields (field key v rest) p = elim (set_field key v p) [
  | none ↦ none
  | some p' ↦ decode_fields rest p'
]

-- Decoding a body into a zero payload; `null` changes nothing. An element `null` of a repeated
-- "recentEvents" is empty here, and what the earlier list has at its place in Go.
unfoldable pub decode : Option Json → Option Payload
decode none = none
decode (some null) = some zero_payload
decode (some (obj fields)) = decode_fields fields zero_payload
decode (some _) = none

-- The row of a payload. `Insert` names neither the id nor the time: the database sets both.
unfoldable pub diagnosis_of : Payload → Diagnosis
diagnosis_of p = record {
  id = pos 0;
  cluster = p.cluster;
  namespace = p.namespace;
  pod = p.pod;
  container = p.container;
  root_cause = p.root_cause;
  confidence = p.confidence;
  summary = p.summary;
  recommendation = p.recommendation;
  suppressed_count = p.suppressed_count;
  restarts = p.restarts;
  rollout_context = p.rollout_context;
  log_excerpt = p.log_excerpt;
  recent_events = p.recent_events;
  received_at = 0;
}

-- What `handleIngest` does with a decoded payload.
unfoldable pub ingest_payload : {W : Type 0} → DiagnosisStore W → Payload → W → ℕ × W
ingest_payload store p w =
    if p.namespace == "" || p.pod == ""
    then (400, w)
    else (let (inserted, w') = store.insert (diagnosis_of p) w in
        (if inserted then 202 else 500, w'))

unfoldable pub handle_ingest : {W : Type 0} → DiagnosisStore W → Handler ℕ W
handle_ingest store r w =
    if not (r.method == "POST")
    then (405, w)
    else elim (decode r.body) [ none ↦ (400, w) | some p ↦ ingest_payload store p w ]

-- `handleReadyz`
unfoldable pub handle_readyz : {W : Type 0} → DiagnosisStore W → Handler ℕ W
handle_readyz store r w = let (up, w') = store.ping w in (if up then 200 else 503, w')

unfoldable pub handle_healthz : {W : Type 0} → Handler ℕ W
handle_healthz r w = (200, w)
