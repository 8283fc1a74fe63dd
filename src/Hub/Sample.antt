-- ===== src/Hub/Sample.antt =====
-- A notification and a hub with a token, for the tests.
use poddoctor.Prelude.{none, pos, arith}
use poddoctor.Api.{RootCause, Confidence, zero_status}
use poddoctor.Notify.Payload.{Notification, payload_of}
use poddoctor.Hub.Store.{DiagnosisStore}
use poddoctor.Hub.Api.{Server}
use poddoctor.Hub.Ingest.{IsPayload}

abbrev pub sample : Notification
sample = record {
  diag = record {
    meta = record {
      name = "web-1-app";
      namespace = "prod";
      controller = none;
      resource_version = 3;
    };
    spec = record {
      pod_name = "web-1";
      pod_namespace = "prod";
      container_name = "app";
      pod_uid = "u1";
    };
    status = record zero_status {
      root_cause = RootCause.oom_killed;
      confidence = Confidence.high;
      restart_count = pos 4;
    };
  };
  cluster = "eu";
  suppressed_count = pos 2;
}

pub sample-IsPayload : IsPayload (payload_of sample)
unfolding payload_of
sample-IsPayload = record {
  count_fits = record { from = omega arith; to = omega arith };
  restarts_fits = record { from = omega arith; to = omega arith };
}

abbrev pub hub_over : {W : Type 0} → DiagnosisStore W → Server W
hub_over store = record {
  store = store;
  token = "secret";
  tracing = record { grafana_url = ""; tempo_datasource_uid = "" };
  stamp = λ _. "now";
  web_ui = λ _ _. record { status = 200; body = none };
}
