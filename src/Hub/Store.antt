-- ===== src/Hub/Store.antt =====
-- internal/hub/store.go as the server sees it: the interface `diagnosisStore`, and `List`'s limit.
use poddoctor.Prelude.{ℕ, String, Bool, Option, List, ℤ, pos, leb_ℤ, ◌||◌, not, if◌then◌else◌}
use poddoctor.Api.{Time}

pub record Diagnosis : Type 0 where
  pub id : ℤ
  pub cluster : String
  pub namespace : String
  pub pod : String
  pub container : String
  pub root_cause : String
  pub confidence : String
  pub summary : String
  pub recommendation : String
  pub suppressed_count : ℤ
  pub restarts : ℤ
  pub rollout_context : String
  pub log_excerpt : List ℕ
  pub recent_events : List String
  pub received_at : Time

pub record Filter : Type 0 where
  pub cluster : String
  pub namespace : String
  pub root_cause : String
  pub limit : ℤ

-- `diagnosisStore`, over the world that it changes: an error is `false` or none.
pub record DiagnosisStore (W : Type 0) : Type 0 where
  pub insert : Diagnosis → W → Bool × W
  pub list : Filter → W → Option (List Diagnosis) × W
  pub ping : W → Bool × W

abbrev pub default_list_limit : ℤ
default_list_limit = pos 200

abbrev pub max_list_limit : ℤ
max_list_limit = pos 500

-- The limit that `List` puts into its query.
unfoldable pub list_limit : Filter → ℤ
list_limit f =
    if leb_ℤ f.limit (pos 0) || not (leb_ℤ f.limit max_list_limit)
    then default_list_limit
    else f.limit
