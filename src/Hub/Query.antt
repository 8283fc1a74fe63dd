-- ===== src/Hub/Query.antt =====
-- The query that `List` of internal/hub/store.go sends: its text and its arguments. The database
-- takes argument i, from 1, for the placeholder $i. Conditions has what it asks for.
pub mod Conditions
use Prim.Native.String.{◌++◌}
use mathlib.Core.List.{◌++◌ as append}
use poddoctor.Prelude.{ℕ, String, ◌+◌, not, List, [], ◌∷◌, ◌==◌, ℤ, pos, length, if◌then◌else◌}
use poddoctor.Text.{decimal}
use poddoctor.Api.{Time}
use poddoctor.Json.{Json}
use poddoctor.Hub.Store.{Filter, list_limit}

-- A value that goes to the database or comes from it: a text, a number, bytes, the text of a JSON value,
-- or a time.
pub data Arg : Type 0 where
  text : String → Arg
  number : ℤ → Arg
  raw : List ℕ → Arg
  json : Json → Arg
  time : Time → Arg

pub record Query : Type 0 where
  pub sql : String
  pub args : List Arg

abbrev pub select : String
select =
    "SELECT id, cluster, namespace, pod, container, root_cause, confidence, summary, recommendation, suppressed_count, restarts, rollout_context, log_excerpt, recent_events, received_at FROM diagnoses WHERE 1=1"

-- The two statements of each filter and of the limit: an argument, and the text with its number.
unfoldable pub with_arg : String → Arg → Query → Query
with_arg clause arg q =
    let args = append q.args (arg ∷ []) in
    record { sql = q.sql ++ (clause ++ decimal (pos (length args))); args = args }

unfoldable pub with_filter : String → String → Query → Query
unfolding with_arg
with_filter clause value q = if not (value == "") then with_arg clause (text value) q else q

unfoldable pub list_query : Filter → Query
list_query f = with_arg " ORDER BY received_at DESC LIMIT $" (number (list_limit f)) (
    with_filter " AND root_cause = $" f.root_cause (
      with_filter " AND namespace = $" f.namespace
        (with_filter " AND cluster = $" f.cluster (record { sql = select; args = [] }))))
