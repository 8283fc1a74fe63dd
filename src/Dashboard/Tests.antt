-- ===== src/Dashboard/Tests.antt =====
-- One diagnosis in both listings.
use poddoctor.Prelude.{none, ◌∷◌, ◌≡◌, refl, pos, All}
use poddoctor.Text.{bytes}
use poddoctor.Api.{RootCause, Confidence, PodDiagnosis, zero_status}
use poddoctor.Tracelink.{Config}
use poddoctor.Notify.Payload.{Notification, payload_of}
use poddoctor.Hub.Server.{diagnosis_of}
use poddoctor.Hub.Ingest.{arrived}
use poddoctor.Hub.Api.{Stamp, api_record, api_json}
use poddoctor.Dashboard.{dashboard_record, dashboard_json}
use poddoctor.Dashboard.Agree.{member, shared_fields, shared_fields_agree}

abbrev crash : PodDiagnosis
crash = record {
  meta = record { name = "web-1-app"; namespace = "prod"; controller = none; resource_version = 3 };
  spec = record {
    pod_name = "web-1";
    pod_namespace = "prod";
    container_name = "app";
    pod_uid = "u1";
  };
  status = record zero_status {
    root_cause = RootCause.oom_killed;
    confidence = Confidence.high;
    restart_count = pos 4;
    log_excerpt = 255 ∷ bytes "killed";
    last_observed = 7;
  };
}

abbrev tempo : Config
tempo = record { grafana_url = "http://g"; tempo_datasource_uid = "t" }

abbrev stamp : Stamp
stamp _ = "now"

abbrev sent : Notification
sent = record { diag = crash; cluster = "eu"; suppressed_count = pos 0 }

shared_fields_agree_example :
    All
      (λ key.
        member key (dashboard_json stamp (dashboard_record tempo stamp crash))
        ≡ member key (api_json stamp (api_record tempo (diagnosis_of (arrived (payload_of sent))))))
      shared_fields
shared_fields_agree_example = shared_fields_agree tempo stamp sent refl
