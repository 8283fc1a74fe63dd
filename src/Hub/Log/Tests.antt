-- ===== src/Hub/Log/Tests.antt =====
-- A hub over a table in memory, on three requests and a listing.
use mathlib.Core.List.{◌++◌ as append}
use poddoctor.Prelude.{String, none, pos, sym, ap, ◌∙◌, List, [], ◌∷◌, ◌≡◌, refl, pos_part, take}
use poddoctor.Text.{bytes}
use poddoctor.Text.Number.{atoi}
use poddoctor.Notify.Send.{Request, request_of}
use poddoctor.Hub.Store.{Diagnosis, list_limit}
use poddoctor.Hub.Server.{trim_prefix, authenticated}
use poddoctor.Hub.Query.{list_query, with_filter, with_arg}
use poddoctor.Hub.Database.{store_of}
use poddoctor.Hub.Database.Table.{filter, matches, scan_rows-row}
use poddoctor.Hub.Database.Rows.{scan_row-insert_query}
use poddoctor.Hub.Database.Memory.{kept, database, database-IsTable}
use poddoctor.Hub.Access.{bearer}
use poddoctor.Hub.Api.{Server, Call, filter_from_query, get, handle_api_list, list_response, routes}
use poddoctor.Hub.Listing.{list_call, listed_body}
use poddoctor.Hub.Sample.{hub_over, sample}
use poddoctor.Hub.Log.{answers, all_accepted, AreRows}
use poddoctor.Hub.Log.Listed.{IsAtomic, answers_listed}

abbrev hub : Server (List Diagnosis)
hub = hub_over (store_of database)

abbrev reading : Request
reading = record {
  method = "GET";
  url = "http://hub/api/diagnoses";
  content_type = "";
  authorization = "Bearer secret";
  body = none;
}

-- A notification with the hub's token, the same with another, and a listing.
abbrev post : String → Call
post token = record {
  path = "/ingest";
  query = [];
  request = request_of "http://hub/ingest" "generic" token sample;
}

abbrev calls : List Call
calls = post "secret" ∷ post "guessed" ∷ list_call [] reading ∷ []

database-IsAtomic : IsAtomic database (λ rows. rows)
database-IsAtomic = record {
  failed = λ d rows e.
      absurd (cc (sym e ∙ ap (λ o. (kept o rows).0) (scan_row-insert_query (pos 7) 99 d).2));
  asked = λ f rows. refl;
  pinged = λ rows. refl;
}

authorized : bearer reading ≡ "secret"
unfolding trim_prefix
authorized = refl

answered_ok : (rows : List Diagnosis) → (routes hub (list_call [] reading) rows).0.status ≡ 200
unfolding routes authenticated trim_prefix handle_api_list list_response store_of filter_from_query
    get list_query with_filter with_arg list_limit atoi bytes
answered_ok rows = rw (scan_rows-row (take 200 rows)) refl

answers_listed_example :
    (new : List Diagnosis) × AreRows new (all_accepted calls (answers hub calls []).0)
    × ((routes hub (list_call [] reading) (answers hub calls []).1).0.body
        ≡ listed_body hub database
            (λ rows. rows)
            database-IsTable
            refl
            (take
              (pos_part (list_limit (filter_from_query [])))
              (filter (matches (filter_from_query [])) (append new []))))
answers_listed_example =
    answers_listed hub database (λ rows. rows) database-IsTable database-IsAtomic refl calls [] []
      reading authorized (answered_ok _)
