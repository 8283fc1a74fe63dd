-- ===== src/Hub/Tests.antt =====
-- The hub on a concrete notification and an in-memory store.
use poddoctor.Text.{decimal}
use poddoctor.Prelude.{
  leb, ◌&&◌, ◌^◌, ◌<◌, if◌then◌else◌, ℕ, true, none, some, List, [], ◌∷◌, ◌≡◌, refl, pos, ◌≤ℤ◌,
  arith,
}
use poddoctor.Text.Laws.{ne_of_test}
use poddoctor.Notify.Send.{request_of, send}
use poddoctor.Hub.Store.{Diagnosis, DiagnosisStore, list_limit}
use poddoctor.Hub.Api.{Server, Call, get, filter_from_query, routes}
use poddoctor.Hub.Changes.{IsReading, Changes, routes-Changes}
use poddoctor.Hub.Delivery.{hub_client, evidence_row, send_inserts}
use poddoctor.Hub.Sample.{hub_over, sample, sample-IsPayload}
use poddoctor.Hub.Limit.{asked_limit}

-- A store that keeps its rows, newest first.
abbrev memory : DiagnosisStore (List Diagnosis)
memory = record {
  insert = λ d rows. (true, d ∷ rows);
  list = λ f rows. (some rows, rows);
  ping = λ rows. (true, rows);
}

abbrev hub : Server (List Diagnosis)
hub = hub_over memory

send_inserts_example :
    send (hub_client hub) "http://hub/ingest" "generic" "secret" sample []
    ≡ (none, evidence_row sample ∷ [])
send_inserts_example =
    send_inserts hub "http://hub/ingest" "generic" sample []
      (ne_of_test "http://hub/ingest" "" refl) (ne_of_test "generic" "slack" refl) sample-IsPayload
      (ne_of_test "prod" "" refl) (ne_of_test "web-1" "" refl)

-- The request of that notification, to a hub whose listing and ping leave all rows.
abbrev posted : Call
posted = record {
  path = "/ingest";
  query = [];
  request = request_of "http://hub/ingest" "generic" "secret" sample;
}

reading : IsReading hub.store (λ rows. rows)
reading = record { lists = λ f rows. refl; pings = λ rows. refl }

routes-Changes_example : Changes hub (λ rows. rows) reading posted [] (routes hub posted []).1
routes-Changes_example = routes-Changes hub (λ rows. rows) reading posted []

-- A listing with the hub's token.
abbrev listing : Call
listing = record {
  path = "/api/diagnoses";
  query = ("limit", "25") ∷ [];
  request = record {
    method = "GET";
    url = "http://hub/api/diagnoses?limit=25";
    content_type = "";
    authorization = "Bearer secret";
    body = none;
  };
}

asked : get listing.query "limit" ≡ decimal (pos 25)
unfolding get decimal
asked = refl

asked_limit_example :
    ((pos 1 ≤ℤ list_limit (filter_from_query listing.query))
      × (list_limit (filter_from_query listing.query) ≤ℤ pos 500))
    × ((n : ℕ)
        → get listing.query "limit" ≡ decimal (pos n)
        → n < 2 ^ 63
        → list_limit (filter_from_query listing.query)
          ≡ (if leb 1 n && leb n 500 then pos n else pos 200))
asked_limit_example = asked_limit listing.query

listed : list_limit (filter_from_query listing.query) ≡ pos 25
listed = (asked_limit listing.query).1 25 asked (omega arith)
