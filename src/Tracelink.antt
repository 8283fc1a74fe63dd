-- ===== src/Tracelink.antt =====
-- internal/tracelink/tracelink.go: links into Grafana. A URL is its bytes.
pub mod Laws
mod Tests
use Prim.Native.String.{◌++◌}
use mathlib.Core.List.{◌++◌ as append}
use poddoctor.Prelude.{
  ℕ, String, Bool, not, ◌&&◌, ◌==◌, List, [], ◌∷◌, nat_eq, is_empty, if◌then◌else◌,
}
use poddoctor.Text.{bytes}
use poddoctor.Text.Query.{query_escape}
use poddoctor.Json.{Json, str, arr, obj, nil, cons, end, field}
use poddoctor.Json.Text.{json_text}

pub record Config : Type 0 where
  pub grafana_url : String
  pub tempo_datasource_uid : String

unfoldable pub enabled : Config → Bool
enabled c = not (c.grafana_url == "") && not (c.tempo_datasource_uid == "")

-- strings.TrimRight(s, "/")
unfoldable pub trim_right : List ℕ → List ℕ
trim_right [] = []
trim_right (c ∷ s) =
    let rest = trim_right s in if nat_eq c b'/' && is_empty rest then [] else c ∷ rest

unfoldable pub trace_query : String → String → String
trace_query namespace pod =
    "{resource.k8s.namespace.name=\""
    ++ (namespace ++ ("\" && resource.k8s.pod.name=\"" ++ (pod ++ "\"}")))

-- The value that is marshalled; the keys of a map stand in their order.
unfoldable pub explore_state : Config → String → String → Json
explore_state c namespace pod = obj (
    field "datasource" (str c.tempo_datasource_uid) (
      field "queries"
        (arr (
          cons
            (obj (
              field "datasource"
                (obj (field "type" (str "tempo") (field "uid" (str c.tempo_datasource_uid) end)))
                (field "query" (str (trace_query namespace pod))
                  (field "queryType" (str "traceql") end))))
            nil))
        (field "range" (obj (field "from" (str "now-1h") (field "to" (str "now") end))) end)))

-- `URL`; none of its values fails to marshal.
unfoldable pub url : Config → String → String → List ℕ
unfolding enabled
url c namespace pod =
    if not (enabled c)
    then []
    else append (trim_right (bytes c.grafana_url))
        (append (bytes "/explore?left=") (query_escape (json_text (explore_state c namespace pod))))
