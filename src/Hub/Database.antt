-- ===== src/Hub/Database.antt =====
-- `Store` of internal/hub/store.go over a database: Open, Close, Ping, Insert and List. The database is a
-- parameter; a row has a value for each column that is selected, and a value of another type than its
-- column's does not scan.
pub mod Rows
pub mod Table
pub mod Memory
mod Tests
use poddoctor.Prelude.{
  String, Bool, true, false, Option, none, some, List, [], ◌∷◌, ◌⊎◌, inl, inr, ◌==◌, if◌then◌else◌,
}
use poddoctor.Json.{Json, null, arr, strings, get_strings}
use poddoctor.Hub.Store.{Diagnosis, DiagnosisStore}
use poddoctor.Hub.Query.{Arg, text, number, raw, json, time, Query, list_query}

-- *sql.DB: a call answers whether it succeeded, and a query with all its rows, or none for an error.
pub record Database (W : Type 0) : Type 0 where
  pub ping : W → Bool × W
  pub exec : Query → W → Bool × W
  pub query : Query → W → Option (List (List Arg)) × W
  pub close : W → Bool × W

-- `Store` has its database alone.
abbrev pub Store : Type 0 → Type 0
Store W = Database W

abbrev insert_sql : String
insert_sql =
    "\n\t\tINSERT INTO diagnoses (cluster, namespace, pod, container, root_cause, confidence, summary, recommendation, suppressed_count, restarts, rollout_context, log_excerpt, recent_events)\n\t\tVALUES ($1, $2, $3, $4, $5, $6, $7, $8, $9, $10, $11, $12, $13)\n\t"

-- json.Marshal of the events; the empty list is Go's nil. (A slice that is empty and not nil is written
-- "[]", which is read as the same.)
unfoldable pub events_json : List String → Json
events_json [] = null
events_json (s ∷ r) = arr (strings (s ∷ r))

-- The statement of `Insert` with its arguments.
unfoldable pub insert_query : Diagnosis → Query
unfolding events_json
insert_query d = record {
  sql = insert_sql;
  args =
      text d.cluster
      ∷ text d.namespace
      ∷ text d.pod
      ∷ text d.container
      ∷ text d.root_cause
      ∷ text d.confidence
      ∷ text d.summary
      ∷ text d.recommendation
      ∷ number d.suppressed_count
      ∷ number d.restarts
      ∷ text d.rollout_context
      ∷ raw d.log_excerpt
      ∷ json (events_json d.recent_events)
      ∷ [];
}

-- The column of the events: nothing is read of an empty text.
unfoldable pub scan_events : Arg → Option (List String)
scan_events (json v) = get_strings v []
scan_events (text s) = if s == "" then some [] else none
scan_events _ = none

-- rows.Scan and what follows it in the loop of `List`.
unfoldable pub scan_row : List Arg → Option Diagnosis
unfolding scan_events
scan_row
      (number id
        ∷ text cluster
        ∷ text namespace
        ∷ text pod
        ∷ text container
        ∷ text root_cause
        ∷ text confidence
        ∷ text summary
        ∷ text recommendation
        ∷ number suppressed_count
        ∷ number restarts
        ∷ text rollout_context
        ∷ raw log_excerpt
        ∷ events
        ∷ time received_at
        ∷ []) =
    elim (scan_events events) [
      | none ↦ none
      | some recent_events ↦ some (record {
        id = id;
        cluster = cluster;
        namespace = namespace;
        pod = pod;
        container = container;
        root_cause = root_cause;
        confidence = confidence;
        summary = summary;
        recommendation = recommendation;
        suppressed_count = suppressed_count;
        restarts = restarts;
        rollout_context = rollout_context;
        log_excerpt = log_excerpt;
        recent_events = recent_events;
        received_at = received_at;
      })
    ]
scan_row _ = none

-- The loop of `List`: the first row that does not scan ends it with its error.
unfoldable pub scan_rows : List (List Arg) → Option (List Diagnosis)
scan_rows [] = some []
scan_rows (row ∷ rest) = elim (scan_row row) [
  | none ↦ none
  | some d ↦ elim (scan_rows rest) [ none ↦ none | some ds ↦ some (d ∷ ds) ]
]

abbrev pub then_scan : Option (List (List Arg)) → Option (List Diagnosis)
then_scan none = none
then_scan (some rows) = scan_rows rows

-- The methods of `Store`, as the server uses them.
unfoldable pub store_of : {W : Type 0} → Store W → DiagnosisStore W
store_of db = record {
  insert = λ d w. db.exec (insert_query d) w;
  list = λ f w. let (rows, w') = db.query (list_query f) w in (then_scan rows, w');
  ping = λ w. db.ping w;
}

-- `Close`
unfoldable pub close_store : {W : Type 0} → Store W → W → Bool × W
close_store db w = db.close w

abbrev migrate_sql : String
migrate_sql =
    "\n\t\tCREATE TABLE IF NOT EXISTS diagnoses (\n\t\t\tid               BIGSERIAL PRIMARY KEY,\n\t\t\tcluster          TEXT NOT NULL DEFAULT '',\n\t\t\tnamespace        TEXT NOT NULL,\n\t\t\tpod              TEXT NOT NULL,\n\t\t\tcontainer        TEXT NOT NULL,\n\t\t\troot_cause       TEXT NOT NULL,\n\t\t\tconfidence       TEXT NOT NULL,\n\t\t\tsummary          TEXT NOT NULL,\n\t\t\trecommendation   TEXT NOT NULL,\n\t\t\tsuppressed_count INT NOT NULL DEFAULT 0,\n\t\t\trestarts         INT NOT NULL DEFAULT 0,\n\t\t\trollout_context  TEXT NOT NULL DEFAULT '',\n\t\t\tlog_excerpt      TEXT NOT NULL DEFAULT '',\n\t\t\trecent_events    TEXT NOT NULL DEFAULT '[]',\n\t\t\treceived_at      TIMESTAMPTZ NOT NULL DEFAULT now()\n\t\t);\n\t\tCREATE INDEX IF NOT EXISTS idx_diagnoses_received_at ON diagnoses (received_at DESC);\n\t\tCREATE INDEX IF NOT EXISTS idx_diagnoses_cluster_ns ON diagnoses (cluster, namespace);\n\t"

unfoldable pub migrate : {W : Type 0} → Database W → W → Bool × W
migrate db w = db.exec (record { sql = migrate_sql; args = [] }) w

-- The step that `Open` names in its error.
pub data OpenError : Type 0 where
  opening pinging migrating : OpenError

abbrev pub migrated : {W : Type 0} → Database W → Bool × W → (OpenError ⊎ Store W) × W
migrated db (true, w) = (inr db, w)
migrated db (false, w) = (inl migrating, w)

abbrev pub pinged : {W : Type 0} → Database W → Bool × W → (OpenError ⊎ Store W) × W
pinged db (true, w) = migrated db (migrate db w)
pinged db (false, w) = (inl pinging, w)

-- `Open`; sql.Open is `connect`, with none for its error.
unfoldable pub open_store :
    {W : Type 0} → (String → Option (Database W)) → String → W → (OpenError ⊎ Store W) × W
open_store connect dsn w = elim (connect dsn) [
  | none ↦ (inl opening, w)
  | some db ↦ pinged db (db.ping w)
]
