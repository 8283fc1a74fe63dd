-- ===== src/Hub/Ingest.antt =====
-- A notification that a cluster sends is the row that the hub stores.
use poddoctor.Prelude.{
  Fits, ℕ, String, Bool, true, false, not, some, List, [], ◌∷◌, ◌≡◌, refl, ap, ◌∙◌, ◌==◌, ℤ, pos,
  negsuc, leb_ℤ_iff, ◌^◌, ◌-◌, is_empty, int_eq, int_eq_iff, eq_iff, arith, if◌then◌else◌,
}
use poddoctor.Text.Utf8.{coerce}
use poddoctor.Text.{bytes}
use poddoctor.Json.{
  Json, num, str, arr, Fields, end, field, field_if, names, strings, get_int, get_items,
}
use poddoctor.Notify.Payload.{Payload, Notification, payload_of, marshal}
use poddoctor.Hub.Store.{Diagnosis}
use poddoctor.Hub.Server.{zero_payload, set_field, decode_fields, decode, diagnosis_of}

pub record IsPayload (p : Payload) : Type 0 where
  pub count_fits : Fits 64 p.suppressed_count
  pub restarts_fits : Fits 32 p.restarts

get_int-Fits : (bits : ℕ) (n old : ℤ) → Fits bits n → get_int bits (num n) old ≡ some n
unfolding get_int
get_int-Fits bits n old f = ground (
  arith,
  leb_ℤ_iff (negsuc (2 ^ (bits - 1) - 1)) n,
  leb_ℤ_iff n (pos (2 ^ (bits - 1) - 1)),
  f.from,
  f.to,
)

pub get_items-strings : (ss : List String) → get_items (strings ss) ≡ some ss
unfolding get_items strings
get_items-strings [] = refl
get_items-strings (s ∷ r) = rw (get_items-strings r)

-- One field decoded, and one that may have been omitted.
module _ (key : String) (v : Json) (rest : Fields) (p p' : Payload) where
  decode_step :
      set_field key v p ≡ some p' → decode_fields (field key v rest) p ≡ decode_fields rest p'
  unfolding decode_fields
  decode_step e = rw (e, decode_fields)

  decode_step_if :
      (b : Bool)
      → set_field key v p ≡ some p'
      → (b ≡ false → p ≡ p')
      → decode_fields (field_if b key v rest) p ≡ decode_fields rest p'
  unfolding field_if decode_fields
  decode_step_if true e f = rw (e, decode_fields)
  decode_step_if false e f = ap (decode_fields rest) (f refl)

-- The log excerpt that arrives: valid UTF-8, and nothing for nothing.
unfoldable pub arrived_log : List ℕ → List ℕ
arrived_log log = if is_empty log then [] else bytes (coerce log)

unfoldable pub arrived : Payload → Payload
arrived p = record p { log_excerpt = arrived_log p.log_excerpt }

-- The row that the hub makes of a notification.
abbrev pub row_of : Notification → Diagnosis
row_of n = diagnosis_of (arrived (payload_of n))

empty_of_not : (s : String) → not (s == "") ≡ false → s ≡ ""
empty_of_not s h = ground (arith, eq_iff s "")

zero_of_not : (n : ℤ) → not (int_eq n (pos 0)) ≡ false → n ≡ pos 0
zero_of_not n h = ground (arith, int_eq_iff n (pos 0))

set_count :
    (p : Payload) (n : ℤ)
    → Fits 64 n
    → set_field "suppressedCount" (num n) p ≡ some (record p { suppressed_count = n })
unfolding set_field names
set_count p n f = rw (get_int-Fits 64 n p.suppressed_count f)

set_restarts :
    (p : Payload) (n : ℤ)
    → Fits 32 n
    → set_field "restarts" (num n) p ≡ some (record p { restarts = n })
unfolding set_field names
set_restarts p n f = rw (get_int-Fits 32 n p.restarts f)

log_step :
    (log : List ℕ) (rest : Fields) (p : Payload)
    → p.log_excerpt ≡ []
    → decode_fields (field_if (not (is_empty log)) "logExcerpt" (str (coerce log)) rest) p
      ≡ decode_fields rest (record p { log_excerpt = arrived_log log })
unfolding decode_fields field_if set_field names arrived_log
log_step [] rest p e = rw (← e)
log_step (c ∷ log) rest p e = refl

events_step :
    (ss : List String) (rest : Fields) (p : Payload)
    → p.recent_events ≡ []
    → decode_fields (field_if (not (is_empty ss)) "recentEvents" (arr (strings ss)) rest) p
      ≡ decode_fields rest (record p { recent_events = ss })
unfolding decode_fields field_if set_field names strings
events_step [] rest p e = rw (← e)
events_step (s ∷ r) rest p e = rw (get_items-strings (s ∷ r))

decode_end : (p : Payload) → decode_fields end p ≡ some p
unfolding decode_fields
decode_end p = refl

-- Decoding a marshalled payload whose numbers fit their Go types gives the payload back, with the
-- log excerpt made valid UTF-8.
pub decode-marshal : (p : Payload) → IsPayload p → decode (some (marshal p)) ≡ some (arrived p)
unfolding decode marshal arrived set_field names
decode-marshal p v =
    let p0 : Payload = zero_payload in
    let p1 : Payload = record p0 { cluster = p.cluster } in
    let p2 : Payload = record p1 { pod = p.pod } in
    let p3 : Payload = record p2 { namespace = p.namespace } in
    let p4 : Payload = record p3 { container = p.container } in
    let p5 : Payload = record p4 { root_cause = p.root_cause } in
    let p6 : Payload = record p5 { confidence = p.confidence } in
    let p7 : Payload = record p6 { summary = p.summary } in
    let p8 : Payload = record p7 { recommendation = p.recommendation } in
    let p9 : Payload = record p8 { suppressed_count = p.suppressed_count } in
    let p10 : Payload = record p9 { restarts = p.restarts } in
    let p11 : Payload = record p10 { rollout_context = p.rollout_context } in
    let p12 : Payload = record p11 { log_excerpt = arrived_log p.log_excerpt } in
    let p13 : Payload = record p12 { recent_events = p.recent_events } in
    decode_step_if _ _ _ p0 p1 _ refl (λ e. rw (empty_of_not p.cluster e))
    ∙ decode_step _ _ _ p1 p2 refl
    ∙ decode_step _ _ _ p2 p3 refl
    ∙ decode_step _ _ _ p3 p4 refl
    ∙ decode_step _ _ _ p4 p5 refl
    ∙ decode_step _ _ _ p5 p6 refl
    ∙ decode_step _ _ _ p6 p7 refl
    ∙ decode_step _ _ _ p7 p8 refl
    ∙ decode_step_if _ _ _ p8 p9 _ (set_count p8 _ v.count_fits)
        (λ e. rw (zero_of_not p.suppressed_count e))
    ∙ decode_step_if _ _ _ p9 p10 _ (set_restarts p9 _ v.restarts_fits)
        (λ e. rw (zero_of_not p.restarts e))
    ∙ decode_step_if _ _ _ p10 p11 _ refl (λ e. rw (empty_of_not p.rollout_context e))
    ∙ log_step p.log_excerpt _ p11 refl
    ∙ events_step p.recent_events end p12 refl
    ∙ decode_end p13
