-- ===== src/Hub/Database/Tests.antt =====
-- A diagnosis as a row, and the opening of a database that answers.
use Prim.Native.String.{◌++◌}
use poddoctor.Prelude.{Bool, true, false, none, some, [], ◌∷◌, ◌≡◌, refl, pos, inl}
use poddoctor.Text.{join}
use poddoctor.Hub.Store.{Diagnosis}
use poddoctor.Hub.Query.{select}
use poddoctor.Hub.Database.{Database, insert_query, scan_row, migrate, open_store, migrating}
use poddoctor.Hub.Database.Rows.{
  inserted_columns, selected_columns, stored_row, scan_row-insert_query,
}

abbrev crash : Diagnosis
crash = record {
  id = pos 0;
  cluster = "eu";
  namespace = "prod";
  pod = "web-1";
  container = "app";
  root_cause = "OOMKilled";
  confidence = "High";
  summary = "";
  recommendation = "";
  suppressed_count = pos 2;
  restarts = pos 4;
  rollout_context = "";
  log_excerpt = [];
  recent_events = "BackOff" ∷ [];
  received_at = 0;
}

scan_row-insert_query_example :
    ((insert_query crash).sql
      ≡ "\n\t\tINSERT INTO diagnoses ("
        ++ (join inserted_columns ", "
            ++ ")\n\t\tVALUES ($1, $2, $3, $4, $5, $6, $7, $8, $9, $10, $11, $12, $13)\n\t"))
    × (select ≡ "SELECT " ++ (join selected_columns ", " ++ " FROM diagnoses WHERE 1=1"))
    × (scan_row (stored_row (pos 7) 99 crash)
        ≡ some (record crash { id = pos 7; received_at = 99 }))
scan_row-insert_query_example = scan_row-insert_query (pos 7) 99 crash

-- A database that answers a ping and refuses the schema.
abbrev read_only : Database Bool
read_only = record {
  ping = λ w. (true, w);
  exec = λ _ w. (false, true);
  query = λ _ w. (none, w);
  close = λ w. (true, w);
}

not_migrated : open_store (λ _. some read_only) "postgres://" false ≡ (inl migrating, true)
unfolding open_store migrate
not_migrated = refl
