-- ===== src/Hub/Listing/Tests.antt =====
-- A hub over a table in memory, which answers listings without conditions.
use poddoctor.Prelude.{
  true, none, some, List, [], ◌∷◌, ◌≡◌, ◌≢◌, refl, ap, ◌∙◌, ℤ, pos, pos_part, take, if◌then◌else◌,
  ◌-◌,
}
use poddoctor.Text.{bytes}
use poddoctor.Text.Number.{atoi}
use poddoctor.Json.{get_strings}
use poddoctor.Text.Laws.{ne_of_test}
use poddoctor.Api.{Time}
use poddoctor.Notify.Payload.{payload_of}
use poddoctor.Hub.Store.{Diagnosis, list_limit}
use poddoctor.Hub.Query.{with_arg, with_filter, list_query}
use poddoctor.Hub.Server.{trim_prefix, authenticated, diagnosis_of}
use poddoctor.Hub.Access.{bearer}
use poddoctor.Hub.Database.{insert_query, events_json, scan_events, scan_row, scan_rows, store_of}
use poddoctor.Hub.Database.Rows.{scan_row-insert_query}
use poddoctor.Hub.Database.Memory.{kept, database, database-IsTable}
use poddoctor.Hub.Database.Table.{filter, matches}
use poddoctor.Hub.Api.{Server, get, filter_from_query, handle_api_list, list_response, routes}
use poddoctor.Hub.Ingest.{arrived, row_of}
use poddoctor.Hub.Sample.{hub_over, sample, sample-IsPayload}
use poddoctor.Notify.Send.{Request, bad_status, send}
use poddoctor.Hub.Delivery.{hub_client, send_rows}
use poddoctor.Hub.Listing.{list_call, listed_body, send_lists}

abbrev hub : Server (List Diagnosis)
hub = hub_over (store_of database)

-- The table once the notification was sent to an empty one.
abbrev sent : List Diagnosis
sent = record (row_of sample) { id = pos 7; received_at = 99 } ∷ []

unnamed : (sample.diag.spec.pod_namespace ≢ "") × (sample.diag.spec.pod_name ≢ "")
unnamed = (ne_of_test "prod" "" refl, ne_of_test "web-1" "" refl)

sends : send (hub_client hub) "http://hub/ingest" "generic" "secret" sample [] ≡ (none, sent)
unfolding store_of
sends =
    send_rows hub "http://hub/ingest" "generic" sample [] (ne_of_test "http://hub/ingest" "" refl)
      (ne_of_test "generic" "slack" refl) sample-IsPayload unnamed.0 unnamed.1
    ∙ ap (λ o. (if (kept o []).0 then none else some (bad_status 500), (kept o []).1))
        (scan_row-insert_query (pos 7) 99 (row_of sample)).2

abbrev reading : Request
reading = record {
  method = "GET";
  url = "http://hub/api/diagnoses";
  content_type = "";
  authorization = "Bearer secret";
  body = none;
}

authorized : bearer reading ≡ "secret"
unfolding trim_prefix
authorized = refl

unfiltered : matches (filter_from_query []) (row_of sample) ≡ true
unfolding filter_from_query get
unfiltered = refl

answers : (routes hub (list_call [] reading) sent).0.status ≡ 200
unfolding routes authenticated trim_prefix handle_api_list list_response store_of filter_from_query
    get list_query with_filter with_arg list_limit scan_row scan_rows scan_events insert_query
    events_json diagnosis_of arrived payload_of atoi bytes get_strings
answers = refl

send_lists_example :
    (id : ℤ) × (at : Time) × ((routes hub (list_call [] reading) sent).0.body
      ≡ listed_body hub database
          (λ rows. rows)
          database-IsTable
          refl
          (record (row_of sample) { id = id; received_at = at }
            ∷ take
                (pos_part (list_limit (filter_from_query [])) - 1)
                (filter (matches (filter_from_query [])) [])))
send_lists_example =
    send_lists hub database (λ rows. rows) database-IsTable refl "http://hub/ingest" "generic"
      sample [] sent [] reading (ne_of_test "http://hub/ingest" "" refl)
      (ne_of_test "generic" "slack" refl) sample-IsPayload unnamed.0 unnamed.1 sends authorized
      unfiltered answers
