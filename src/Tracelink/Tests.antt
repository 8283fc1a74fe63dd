-- ===== src/Tracelink/Tests.antt =====
-- A link, and the text in it.
use poddoctor.Prelude.{[], ◌≡◌, ◌≢◌, ◌⊎◌, refl}
use poddoctor.Text.{bytes}
use poddoctor.Text.Query.{escape_byte, query_escape}
use poddoctor.Json.Text.{json_text}
use poddoctor.Tracelink.{Config, url, trace_query, explore_state}
use poddoctor.Tracelink.Laws.{IsLink, url-IsLink}

abbrev tempo : Config
tempo = record { grafana_url = "https://g.example/"; tempo_datasource_uid = "t 1" }

state_text :
    json_text (explore_state tempo "prod" "web-1")
    ≡ bytes
        "{\"datasource\":\"t 1\",\"queries\":[{\"datasource\":{\"type\":\"tempo\",\"uid\":\"t 1\"},\"query\":\"{resource.k8s.namespace.name=\\\"prod\\\" \\u0026\\u0026 resource.k8s.pod.name=\\\"web-1\\\"}\",\"queryType\":\"traceql\"}],\"range\":{\"from\":\"now-1h\",\"to\":\"now\"}}"
unfolding json_text explore_state trace_query bytes
state_text = refl

escaped : query_escape (bytes "{\"t 1\":é~") ≡ bytes "%7B%22t+1%22%3A%C3%A9~"
unfolding query_escape bytes escape_byte
escaped = refl

url-IsLink_example :
    ((tempo.grafana_url ≢ "")
      × (tempo.tempo_datasource_uid ≢ "")
      × IsLink tempo "prod" "web-1" (url tempo "prod" "web-1"))
    ⊎ (((tempo.grafana_url ≡ "") ⊎ (tempo.tempo_datasource_uid ≡ ""))
        × (url tempo "prod" "web-1" ≡ []))
url-IsLink_example = url-IsLink tempo "prod" "web-1"
