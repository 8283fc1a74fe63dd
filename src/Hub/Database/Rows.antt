-- ===== src/Hub/Database/Rows.antt =====
-- What `Insert` writes, `List` reads: the columns of the two statements and the order of the scan.
use Prim.Native.String.{◌++◌}
use poddoctor.Prelude.{String, some, List, [], ◌∷◌, ◌≡◌, refl, ◌==◌, ℤ, map, if◌then◌else◌}
use poddoctor.Text.{join}
use poddoctor.Api.{Time}
use poddoctor.Json.{get_strings}
use poddoctor.Hub.Store.{Diagnosis}
use poddoctor.Hub.Query.{Arg, number, json, time, select}
use poddoctor.Hub.Ingest.{get_items-strings}
use poddoctor.Hub.Database.{insert_query, scan_row, scan_events, events_json}

abbrev pub inserted_columns : List String
inserted_columns =
    "cluster" ∷ "namespace" ∷ "pod" ∷ "container" ∷ "root_cause" ∷ "confidence" ∷ "summary"
    ∷ "recommendation" ∷ "suppressed_count" ∷ "restarts" ∷ "rollout_context" ∷ "log_excerpt"
    ∷ "recent_events" ∷ []

abbrev pub selected_columns : List String
selected_columns =
    "id" ∷ "cluster" ∷ "namespace" ∷ "pod" ∷ "container" ∷ "root_cause" ∷ "confidence" ∷ "summary"
    ∷ "recommendation" ∷ "suppressed_count" ∷ "restarts" ∷ "rollout_context" ∷ "log_excerpt"
    ∷ "recent_events" ∷ "received_at" ∷ []

-- The value of a column of a row that was inserted with these arguments; the database gives the
-- columns that the statement does not name.
abbrev pub column : ℤ → Time → List String → List Arg → String → Arg
column id at (c ∷ cs) (v ∷ vs) name = if c == name then v else column id at cs vs name
column id at _ _ name = if name == "id" then number id else time at

-- The row as a query for these columns gives it.
abbrev pub stored_row : ℤ → Time → Diagnosis → List Arg
stored_row id at d = map (column id at inserted_columns (insert_query d).args) selected_columns

scan_events-events_json : (ss : List String) → scan_events (json (events_json ss)) ≡ some ss
unfolding scan_events events_json get_strings
scan_events-events_json [] = refl
scan_events-events_json (s ∷ r) = get_items-strings (s ∷ r)

-- The statements of Insert and List name their columns in the order of the arguments and of the
-- scan: the row of an inserted diagnosis, with the id and the time that the database gives it,
-- scans as the diagnosis with that id and time.
pub scan_row-insert_query :
    (id : ℤ) (at : Time) (d : Diagnosis)
    → ((insert_query d).sql
        ≡ "\n\t\tINSERT INTO diagnoses ("
          ++ (join inserted_columns ", "
              ++ ")\n\t\tVALUES ($1, $2, $3, $4, $5, $6, $7, $8, $9, $10, $11, $12, $13)\n\t"))
      × (select ≡ "SELECT " ++ (join selected_columns ", " ++ " FROM diagnoses WHERE 1=1"))
      × (scan_row (stored_row id at d) ≡ some (record d { id = id; received_at = at }))
unfolding insert_query scan_row join
scan_row-insert_query id at d = (refl, refl, rw (scan_events-events_json d.recent_events, scan_row))
