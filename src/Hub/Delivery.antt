-- ===== src/Hub/Delivery.antt =====
-- The operator's `Send` against the hub's `/ingest`: a cluster is just another webhook target.
use Prim.Native.String.{◌++◌}
use mathlib.Core.List.{map}
use text.Mathlib.TextPositions.{starts_with-append, slice-append_right, len-append}
use poddoctor.Prelude.{
  List, [], ◌∷◌, ℕ, pos, String, Bool, true, false, not, Option, none, some, ◌≡◌, ◌≢◌, refl, ap,
  ◌∙◌, ◌==◌, eq_iff, eq_refl, if◌then◌else◌, Bool-cases, Option-cases, ◌||◌, inl, inr,
}
use poddoctor.Text.{bytes, decimal}
use poddoctor.Text.Laws.{test_of_ne}
use poddoctor.Text.Utf8.{coerce}
use poddoctor.Api.{cause_name, confidence_name, EvidenceEvent}
use poddoctor.Notify.Router.{Format, format_slack}
use poddoctor.Notify.Payload.{Notification, event_line, payload_of}
use poddoctor.Notify.Send.{
  Request, SendError, bad_status, HttpClient, body_of, request_of, status_error, send,
}
use poddoctor.Hub.Store.{Diagnosis}
use poddoctor.Hub.Server.{
  trim_prefix, decode, authenticated, diagnosis_of, ingest_payload, handle_ingest,
}
use poddoctor.Hub.Api.{Response, Server, Call, routes}
use poddoctor.Hub.Ingest.{IsPayload, arrived, arrived_log, row_of, decode-marshal}

-- One event of the evidence, as the row shows it.
abbrev pub shown_event : EvidenceEvent → String
shown_event e = e.reason ++ (": " ++ (e.message ++ (" (x" ++ (decimal e.count ++ ")"))))

-- The row with all the evidence of a notification: the texts and numbers of the stored diagnosis, its
-- log excerpt as valid UTF-8 and its events as lines. The table numbers and dates it.
abbrev pub evidence_row : Notification → Diagnosis
evidence_row n = record {
  id = pos 0;
  cluster = n.cluster;
  namespace = n.diag.spec.pod_namespace;
  pod = n.diag.spec.pod_name;
  container = n.diag.spec.container_name;
  root_cause = cause_name n.diag.status.root_cause;
  confidence = confidence_name n.diag.status.confidence;
  summary = n.diag.status.summary;
  recommendation = n.diag.status.recommendation;
  suppressed_count = n.suppressed_count;
  restarts = n.diag.status.restart_count;
  rollout_context = n.diag.status.rollout_context;
  log_excerpt = bytes (coerce n.diag.status.log_excerpt);
  recent_events = map shown_event n.diag.status.recent_events;
  received_at = 0;
}

coerce-arrived_log : (log : List ℕ) → arrived_log log ≡ bytes (coerce log)
unfolding arrived_log bytes coerce
coerce-arrived_log [] = refl
coerce-arrived_log (c ∷ log) = refl

row_of_lem : (n : Notification) → row_of n ≡ evidence_row n
unfolding diagnosis_of arrived payload_of event_line
row_of_lem n = rw (coerce-arrived_log n.diag.status.log_excerpt)

-- The network between them delivers the request to the hub's endpoint as it is and brings the status
-- code back.
abbrev ingest_call : Request → Call
ingest_call r = record { path = "/ingest"; query = []; request = r }

pub hub_client : {W : Type 0} → Server W → HttpClient W
hub_client server = record {
  valid_url = λ url. not (url == "");
  post = λ r w. let (response, w') = routes server (ingest_call r) w in (some response.status, w');
}

-- The endpoint under its path, by its status code.
abbrev status_of : {W : Type 0} → Response × W → ℕ × W
status_of (response, w) = (response.status, w)

routes-ingest :
    {W : Type 0} (server : Server W) (r : Request) (w : W)
    → status_of (routes server (ingest_call r) w)
      ≡ authenticated 401 server.token (handle_ingest server.store) r w
unfolding routes authenticated
routes-ingest server r w = elim (Bool-cases (server.token == "")) [
  | inl e ↦ rw e
  | inr e ↦ elim (Bool-cases (trim_prefix r.authorization "Bearer " == server.token)) [
    | inl f ↦ rw (e, f)
    | inr f ↦ rw (e, f)
  ]
]

trim_prefix-append : (p t : String) → trim_prefix (p ++ t) p ≡ t
unfolding trim_prefix
trim_prefix-append p t = rw (starts_with-append p t, len-append p t) (slice-append_right p t)

-- The token that a request of `Send` carries is the one that the hub reads.
carried :
    (url : String) (format : Format) (token : String) (n : Notification)
    → trim_prefix (request_of url format token n).authorization "Bearer " ≡ token
unfolding request_of
carried url format token n = elim (Bool-cases (token == "")) [
  | inl e ↦ rw ((eq_iff token "").0 e) (unfold trim_prefix in refl)
  | inr e ↦ rw e (trim_prefix-append "Bearer " token)
]

-- The answer of the hub to an authenticated request, as `Send` reads it.
abbrev pub reported : {W : Type 0} → ℕ × W → Option SendError × W
reported (code, w) = (status_error (some code), w)

insert_answer :
    {W : Type 0} (b : Bool) (w : W)
    → reported (if b then 202 else 500, w) ≡ (if b then none else some (bad_status 500), w)
unfolding status_error
insert_answer true w = refl
insert_answer false w = refl

-- What insertions keep, a post to the hub keeps.
module _ {W X : Type 0} (server : Server W) (part : W → X)
    (kept : (d : Diagnosis) (w : W) → part (server.store.insert d w).1 ≡ part w) where
  ingest_keeps : (r : Request) (w : W) → part (handle_ingest server.store r w).1 ≡ part w
  unfolding handle_ingest ingest_payload
  ingest_keeps r w = elim (Bool-cases (r.method == "POST")) [
    | inr e ↦ rw e
    | inl e ↦ elim (Option-cases (decode r.body)) [
      | inl q ↦ rw (e, q)
      | inr (p, q) ↦ elim (Bool-cases (p.namespace == "" || p.pod == "")) [
        | inl n ↦ rw (e, q, n)
        | inr n ↦ rw (e, q, n) (kept (diagnosis_of p) w)
      ]
    ]
  ]

  authenticated_keeps :
      (token : String) (r : Request) (w : W)
      → part (authenticated 401 token (handle_ingest server.store) r w).1 ≡ part w
  unfolding authenticated
  authenticated_keeps token r w = elim (Bool-cases (token == "")) [
    | inl e ↦ rw e (ingest_keeps r w)
    | inr e ↦ elim (Bool-cases (trim_prefix r.authorization "Bearer " == token)) [
      | inl f ↦ rw (e, f) (ingest_keeps r w)
      | inr f ↦ rw (e, f)
    ]
  ]

  pub post_keeps : (r : Request) (w : W) → part ((hub_client server).post r w).1 ≡ part w
  unfolding hub_client
  post_keeps r w =
      ap (λ x. part x.1) (routes-ingest server r w) ∙ authenticated_keeps server.token r w

module _ {W : Type 0} (server : Server W) (url : String) (format : Format) (n : Notification)
    (w : W) where
  abbrev sent_request : String → Request
  sent_request token = request_of url format token n

  send_to_hub :
      (token : String)
      → url ≢ ""
      → send (hub_client server) url format token n w
        ≡ reported
            (authenticated 401 server.token (handle_ingest server.store) (sent_request token) w)
  unfolding send hub_client
  send_to_hub token u =
      rw (test_of_ne url "" u) (ap reported (routes-ingest server (sent_request token) w))

  same_token :
      (token : String)
      → authenticated 401 token (handle_ingest server.store) (sent_request token) w
        ≡ handle_ingest server.store (sent_request token) w
  unfolding authenticated
  same_token token = elim (Bool-cases (token == "")) [
    | inl e ↦ rw e
    | inr e ↦ rw (e, carried url format token n, eq_refl token)
  ]

  ingested :
      (token : String)
      → format ≢ format_slack
      → IsPayload (payload_of n)
      → handle_ingest server.store (sent_request token) w
        ≡ ingest_payload server.store (arrived (payload_of n)) w
  unfolding handle_ingest request_of body_of
  ingested token f v = rw (test_of_ne format format_slack f, decode-marshal (payload_of n) v)

  inserted_row :
      n.diag.spec.pod_namespace ≢ ""
      → n.diag.spec.pod_name ≢ ""
      → reported (ingest_payload server.store (arrived (payload_of n)) w) ≡ (
          let (inserted, w') = server.store.insert (diagnosis_of (arrived (payload_of n))) w in
          (if inserted then none else some (bad_status 500), w'))
  unfolding ingest_payload arrived payload_of
  inserted_row ns pod = rw (test_of_ne _ "" ns, test_of_ne _ "" pod) (insert_answer _ _)

  -- Send, so delivered, inserts the row that the hub's code makes of the notification.
  pub send_rows :
      url ≢ ""
      → format ≢ format_slack
      → IsPayload (payload_of n)
      → n.diag.spec.pod_namespace ≢ ""
      → n.diag.spec.pod_name ≢ ""
      → send (hub_client server) url format server.token n w ≡ (
          let (inserted, w') = server.store.insert (row_of n) w in
          (if inserted then none else some (bad_status 500), w'))
  send_rows u f v ns pod =
      send_to_hub server.token u
      ∙ (ap reported (same_token server.token ∙ ingested server.token f v) ∙ inserted_row ns pod)

  -- Send, with the hub's token and a format that is not Slack, to a non-empty URL, of a
  -- notification whose numbers fit their Go types and that names its namespace and pod, to the
  -- routes of a hub at /ingest, reached over a network that delivers requests as they are,
  -- inserts the row with the cluster and the suppressed count of the notification and, of its
  -- diagnosis, the names, the cause, the confidence, the summary, the recommendation, the restart
  -- count, the rollout, the log excerpt as valid UTF-8 and each event as a line of reason,
  -- message and count, and succeeds if the insertion does and reports status 500 otherwise.
  pub send_inserts :
      url ≢ ""
      → format ≢ format_slack
      → IsPayload (payload_of n)
      → n.diag.spec.pod_namespace ≢ ""
      → n.diag.spec.pod_name ≢ ""
      → send (hub_client server) url format server.token n w ≡ (
          let (inserted, w') = server.store.insert (evidence_row n) w in
          (if inserted then none else some (bad_status 500), w'))
  send_inserts u f v ns pod = rw (← row_of_lem n) (send_rows u f v ns pod)

  refused :
      (token : String)
      → server.token ≢ ""
      → token ≢ server.token
      → authenticated 401 server.token (handle_ingest server.store) (sent_request token) w
        ≡ (401, w)
  unfolding authenticated
  refused token h d =
      rw (test_of_ne server.token "" h, carried url format token n, test_of_ne token server.token d)

  -- Send to a non-empty URL, at /ingest of a hub with a token, reached over a network that
  -- delivers requests as they are, with another token than the hub's, leaves the hub's store as
  -- it is and reports status 401.
  send_refused :
      (token : String)
      → url ≢ ""
      → server.token ≢ ""
      → token ≢ server.token
      → send (hub_client server) url format token n w ≡ (some (bad_status 401), w)
  unfolding status_error
  send_refused token u h d = send_to_hub token u ∙ ap reported (refused token h d)
