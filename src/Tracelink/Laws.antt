-- ===== src/Tracelink/Laws.antt =====
-- What a trace link consists of.
use Prim.Native.String.{◌++◌ as concat}
use mathlib.Core.List.{◌++◌}
use poddoctor.Prelude.{
  ℕ, String, true, ◌&&◌, ◌==◌, eq_iff, List, [], ◌∷◌, some, ◌≡◌, ◌≢◌, refl, ap, arith, Bool-cases,
  inl, inr, ◌⊎◌, ◌↔◌, false, nat_eq, nat_eq_iff, is_empty, All,
}
use poddoctor.Text.{bytes}
use poddoctor.Text.Query.{
  IsSafe, query_escape, query_unescape, query_unescape-query_escape, query_escape-IsSafe,
}
use poddoctor.Json.{Json, str, arr, obj, nil, cons, end, field}
use poddoctor.Json.Text.{json_text, json_text-IsByte}
use poddoctor.Tracelink.{Config, enabled, trim_right, trace_query, explore_state, url}

-- The text does not end in a slash.
abbrev pub EndsPlain : List ℕ → Type 0
EndsPlain [] = Unit
EndsPlain (c ∷ []) = c ≢ b'/'
EndsPlain (c ∷ d ∷ s) = EndsPlain (d ∷ s)

-- `t` is `s` without the slashes at its end.
abbrev pub IsTrimmed : List ℕ → List ℕ → Type 0
IsTrimmed s t = (slashes : List ℕ) × (s ≡ t ++ slashes) × All (λ c. c ≡ b'/') slashes × EndsPlain t

EndsPlain-cons :
    (c : ℕ) (t : List ℕ) → (nat_eq c b'/' && is_empty t) ≡ false → EndsPlain t → EndsPlain (c ∷ t)
EndsPlain-cons c [] h e = λ q. ground (arith, nat_eq_iff c b'/')
EndsPlain-cons c (d ∷ t) h e = e

slash_only :
    (c : ℕ) (s t : List ℕ)
    → (nat_eq c b'/' && is_empty t) ≡ true
    → IsTrimmed s t
    → IsTrimmed (c ∷ s) []
slash_only c s [] h (slashes, e, a, p) = (c ∷ s, refl, (ground arith, rw e a), tt)
slash_only c s (d ∷ t) h v = absurd (ground arith)

trim_right-IsTrimmed : (s : List ℕ) → IsTrimmed s (trim_right s)
unfolding trim_right
trim_right-IsTrimmed [] = ([], refl, tt, tt)
trim_right-IsTrimmed (c ∷ s) =
    let (slashes, e, a, p) = trim_right-IsTrimmed s in
    elim (Bool-cases (nat_eq c b'/' && is_empty (trim_right s))) [
      | inl h ↦ rw h (slash_only c s (trim_right s) h (slashes, e, a, p))
      | inr h ↦ rw h (slashes, ap (λ r. c ∷ r) e, a, EndsPlain-cons c (trim_right s) h p)
    ]

enabled_iff :
    (c : Config) → (enabled c ≡ true) ↔ ((c.grafana_url ≢ "") × (c.tempo_datasource_uid ≢ ""))
unfolding enabled
enabled_iff c = ground (arith, eq_iff c.grafana_url "", eq_iff c.tempo_datasource_uid "")

unset_of_disabled :
    (c : Config) → enabled c ≡ false → (c.grafana_url ≡ "") ⊎ (c.tempo_datasource_uid ≡ "")
unfolding enabled
unset_of_disabled c h = elim (Bool-cases (c.grafana_url == "")) [
  | inl e ↦ inl ((eq_iff c.grafana_url "").0 e)
  | inr e ↦ inr ((eq_iff c.tempo_datasource_uid "").0 (ground arith))
]

-- What the link shows in Explore: one TraceQL query on Tempo, of the last hour, for the spans of the pod.
abbrev pub shown_state : Config → String → String → Json
shown_state c namespace pod = obj (
    field "datasource" (str c.tempo_datasource_uid) (
      field "queries"
        (arr (
          cons
            (obj (
              field "datasource"
                (obj (field "type" (str "tempo") (field "uid" (str c.tempo_datasource_uid) end)))
                (field "query"
                  (str (
                    concat "{resource.k8s.namespace.name=\"" (
                      concat namespace
                        (concat "\" && resource.k8s.pod.name=\"" (concat pod "\"}")))))
                  (field "queryType" (str "traceql") end))))
            nil))
        (field "range" (obj (field "from" (str "now-1h") (field "to" (str "now") end))) end)))

-- A link: the URL without its last slashes, the path of Explore, and one parameter of safe characters
-- that decodes to the text of the state.
abbrev pub IsLink : Config → String → String → List ℕ → Type 0
IsLink c namespace pod link =
    (base : List ℕ) × (left : List ℕ) × (link ≡ base ++ (bytes "/explore?left=" ++ left))
    × IsTrimmed (bytes c.grafana_url) base
    × All IsSafe left
    × (query_unescape left ≡ some (json_text (shown_state c namespace pod)))

abbrev linked : Config → String → String → List ℕ
linked c namespace pod =
    trim_right (bytes c.grafana_url)
    ++ (bytes "/explore?left=" ++ query_escape (json_text (explore_state c namespace pod)))

linked-IsLink :
    (c : Config) (namespace pod : String) → IsLink c namespace pod (linked c namespace pod)
unfolding explore_state trace_query
linked-IsLink c namespace pod =
    let state = explore_state c namespace pod in
    (
      trim_right (bytes c.grafana_url),
      query_escape (json_text state),
      refl,
      trim_right-IsTrimmed (bytes c.grafana_url),
      query_escape-IsSafe (json_text state) (json_text-IsByte state),
      query_unescape-query_escape (json_text state) (json_text-IsByte state),
    )

-- With both settings the URL is the Grafana URL without its last slashes, the path of Explore,
-- and one parameter that consists of safe characters and decodes to the JSON text of a query on
-- the Tempo data source for the spans of the namespace and the pod in the last hour; with one of
-- the settings empty the URL is empty.
pub url-IsLink :
    (c : Config) (namespace pod : String)
    → ((c.grafana_url ≢ "")
        × (c.tempo_datasource_uid ≢ "")
        × IsLink c namespace pod (url c namespace pod))
      ⊎ (((c.grafana_url ≡ "") ⊎ (c.tempo_datasource_uid ≡ "")) × (url c namespace pod ≡ []))
unfolding url
url-IsLink c namespace pod = elim (Bool-cases (enabled c)) [
  | inl e ↦ let (g, t) = (enabled_iff c).0 e in inl (g, t, rw e (linked-IsLink c namespace pod))
  | inr e ↦ inr (unset_of_disabled c e, rw e)
]
