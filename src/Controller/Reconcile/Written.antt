-- ===== src/Controller/Reconcile/Written.antt =====
-- What the API server keeps of a status: what its JSON text says (encoding/json, and metav1.Time of
-- apimachinery). The log excerpt is made valid UTF-8, and times are cut to whole seconds.
use mathlib.Core.List.{map}
use poddoctor.Prelude.{◌-◌, ◌%◌}
use poddoctor.Text.{bytes}
use poddoctor.Text.Utf8.{coerce}
use poddoctor.Api.{Time, EvidenceEvent, PodDiagnosisStatus}
use poddoctor.Controller.Evidence.{second}

abbrev pub whole : Time → Time
whole t = t - t % second

abbrev pub written_event : EvidenceEvent → EvidenceEvent
written_event e = record e { last_timestamp = whole e.last_timestamp }

abbrev pub written : PodDiagnosisStatus → PodDiagnosisStatus
written st = record st {
  recent_events = map written_event st.recent_events;
  log_excerpt = bytes (coerce st.log_excerpt);
  first_observed = whole st.first_observed;
  last_observed = whole st.last_observed;
}
