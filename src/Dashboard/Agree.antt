-- ===== src/Dashboard/Agree.antt =====
-- The two dashboards: a diagnosis in the operator's listing, and the row that its notification became
-- in the hub's listing.
use poddoctor.Prelude.{
  ℕ, String, Bool, true, false, not, Option, none, some, List, [], ◌∷◌, ◌≡◌, ◌≢◌, refl, ap, ◌==◌,
  All, is_empty, if◌then◌else◌,
}
use poddoctor.Text.{bytes}
use poddoctor.Text.Utf8.{coerce, coerce-bytes, coerce_empty}
use poddoctor.Json.{Json, str, obj, Fields, end, field, field_if}
use poddoctor.Tracelink.{Config, url}
use poddoctor.Notify.Payload.{Notification, payload_of}
use poddoctor.Hub.Server.{diagnosis_of}
use poddoctor.Hub.Ingest.{arrived_log, arrived}
use poddoctor.Hub.Api.{Stamp, api_record, api_json}
use poddoctor.Dashboard.{dashboard_record, dashboard_json}

-- The value of a field of an object.
unfoldable pub field_of : String → Fields → Option Json
field_of key end = none
field_of key (field k v rest) = if k == key then some v else field_of key rest

unfoldable pub member : String → Json → Option Json
unfolding field_of
member key (obj fields) = field_of key fields
member key _ = none

either : (b : Bool) (x : Option Json) → x ≡ (if b then x else x)
either true x = refl
either false x = refl

field_of-field_if :
    (key : String) (b : Bool) (k : String) (v : Json) (rest : Fields)
    → field_of key (field_if b k v rest)
      ≡ (if k == key then (if b then some v else field_of key rest) else field_of key rest)
unfolding field_of field_if
field_of-field_if key true k v rest = refl
field_of-field_if key false k v rest = either (k == key) (field_of key rest)

abbrev log_field : List ℕ → Option Json
log_field log = if not (is_empty log) then some (str (coerce log)) else none

is_empty_ne : (s : List ℕ) → s ≢ [] → is_empty s ≡ false
is_empty_ne [] h = absurd (h refl)
is_empty_ne (c ∷ s) h = refl

log_field-arrived_log : (log : List ℕ) → log_field log ≡ log_field (arrived_log log)
unfolding arrived_log
log_field-arrived_log [] = refl
log_field-arrived_log (c ∷ log) = rw (
  is_empty_ne (bytes (coerce (c ∷ log))) (λ e. cc (coerce_empty (c ∷ log) e)),
  coerce-bytes (coerce (c ∷ log)),
)

-- A proof of `All` from its parts.
infixr 10 ◌and◌
abbrev ◌and◌ : {A B : Type 0} → A → B → A × B
a and b = (a, b)

-- The fields that both records have.
abbrev pub shared_fields : List String
shared_fields =
    "namespace" ∷ "pod" ∷ "container" ∷ "rootCause" ∷ "severity" ∷ "confidence" ∷ "restarts"
    ∷ "summary" ∷ "recommendation" ∷ "rolloutContext" ∷ "logExcerpt" ∷ "recentEvents" ∷ "tracesURL"
    ∷ []

module _ (tracing : Config) (stamp : Stamp) (n : Notification) where
  abbrev traces_field : List ℕ → Option Json
  traces_field link = if not (is_empty link) then some (str (coerce link)) else none

  abbrev shown : Json
  shown = dashboard_json stamp (dashboard_record tracing stamp n.diag)

  abbrev stored : Json
  stored = api_json stamp (api_record tracing (diagnosis_of (arrived (payload_of n))))

  -- The thirteen fields that the operator's dashboard and the hub's listing share agree on a
  -- diagnosis and on the row that the hub stores for its notification, when the object lies in
  -- the namespace of its pod.
  pub shared_fields_agree :
      n.diag.meta.namespace ≡ n.diag.spec.pod_namespace
      → All (λ key. member key shown ≡ member key stored) shared_fields
  unfolding member dashboard_json dashboard_record api_json api_record diagnosis_of arrived
      payload_of field_of
  shared_fields_agree e =
      ap (λ s. some (str s)) e
      and refl
      and refl
      and refl
      and (simp field_of-field_if)
      and refl
      and refl
      and refl
      and refl
      and (simp field_of-field_if)
      and (simp field_of-field_if (log_field-arrived_log n.diag.status.log_excerpt))
      and (simp field_of-field_if)
      and (simp field_of-field_if (ap (λ s. traces_field (url tracing s n.diag.spec.pod_name)) e))
      and tt
