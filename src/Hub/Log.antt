-- ===== src/Hub/Log.antt =====
-- The hub of internal/hub/server.go over a sequence of requests, one handler at a time, and the table of
-- its store.
pub mod Listed
mod Tests
use mathlib.Core.List.{◌++◌ as append, append_assoc}
use poddoctor.Prelude.{
  ℕ, true, false, Option, none, some, List, [], ◌∷◌, ◌≡◌, ◌≢◌, refl, sym, ap, ◌∙◌, ℤ, inl, inr,
  nat_eq, ◌&&◌, ◌==◌, if◌then◌else◌, Bool-cases, Option-cases, arith,
}
use poddoctor.Text.Laws.{ne_of_test, test_of_ne}
use poddoctor.Api.{Time}
use poddoctor.Notify.Payload.{Payload}
use poddoctor.Notify.Send.{Request}
use poddoctor.Hub.Store.{Diagnosis, DiagnosisStore}
use poddoctor.Hub.Server.{
  Handler, authenticated, decode, diagnosis_of, ingest_payload, handle_ingest, handle_healthz,
  handle_readyz,
}
use poddoctor.Hub.Api.{Response, Server, Call, with_status, status_only, handle_api_list, routes}
use poddoctor.Hub.Changes.{IsReading}
use poddoctor.Hub.Dispatch.{authenticated_elim, routes_elim}

-- The hub's answers to requests that come one after the other, and the state after them.
abbrev pub answers : {W : Type 0} → Server W → List Call → W → List Response × W
answers server [] w = ([], w)
answers server (call ∷ calls) w =
    let (response, v) = routes server call w in
    let (responses, v') = answers server calls v in (response ∷ responses, v')

-- The payload that a request brought and the hub accepted, by status 202 of its /ingest.
abbrev read : Option Payload → List Payload
read none = []
read (some p) = p ∷ []

abbrev accepted : Call → Response → List Payload
accepted call response =
    if call.path == "/ingest" && nat_eq response.status 202
    then read (decode call.request.body)
    else []

-- The payloads that it accepted of all the requests, newest first.
abbrev pub all_accepted : List Call → List Response → List Payload
all_accepted (call ∷ calls) (response ∷ responses) =
    append (all_accepted calls responses) (accepted call response)
all_accepted _ _ = []

-- The row of a payload, which names its namespace and its pod, with an id and a time of the database.
abbrev IsRow : Diagnosis → Payload → Type 0
IsRow d p =
    (p.namespace ≢ "")
    × (p.pod ≢ "")
    × (id : ℤ) × (at : Time) × (d ≡ record (diagnosis_of p) { id = id; received_at = at })

-- The rows are those of the payloads, one for each, in order.
abbrev pub AreRows : List Diagnosis → List Payload → Type 0
AreRows [] [] = Unit
AreRows (d ∷ ds) (p ∷ ps) = IsRow d p × AreRows ds ps
AreRows _ _ = ⊥

AreRows-append :
    (ds es : List Diagnosis) (ps qs : List Payload)
    → AreRows ds ps
    → AreRows es qs
    → AreRows (append ds es) (append ps qs)
AreRows-append [] es [] qs h k = k
AreRows-append [] es (p ∷ ps) qs h k = elim h [ ]
AreRows-append (d ∷ ds) es [] qs h k = elim h [ ]
AreRows-append (d ∷ ds) es (p ∷ ps) qs (r, h) k = (r, AreRows-append ds es ps qs h k)

-- A store that keeps its rows, newest first: an insertion puts its row, with an id and a time, before
-- those that are there, or fails and leaves them; the other operations leave them.
pub record KeepsRows {W : Type 0} (store : DiagnosisStore W) (table : W → List Diagnosis)
    : Type 0 where
  pub inserted :
      (d : Diagnosis) (w : W)
      → (store.insert d w).0 ≡ true
      → (id : ℤ) × (at : Time) × (table (store.insert d w).1
          ≡ record d { id = id; received_at = at } ∷ table w)
  pub failed :
      (d : Diagnosis) (w : W) → (store.insert d w).0 ≡ false → table (store.insert d w).1 ≡ table w
  pub reads : IsReading store table

module _ {W : Type 0} (table : W → List Diagnosis) (w : W) where
  -- A state whose table has the rows of some payloads before those of w.
  abbrev pub Grows : List Payload → W → Type 0
  Grows ps w' = (new : List Diagnosis) × (table w' ≡ append new (table w)) × AreRows new ps

  Grows-none : (ps : List Payload) (w' : W) → ps ≡ [] → table w' ≡ table w → Grows ps w'
  Grows-none ps w' e t = ([], t, rw e tt)

  Grows-more :
      (ps qs : List Payload) (v w' : W)
      → Grows ps v
      → (new : List Diagnosis) × (table w' ≡ append new (table v)) × AreRows new qs
      → Grows (append qs ps) w'
  Grows-more ps qs v w' (ds, t, r) (es, t', r') = (
    append es ds,
    t' ∙ ap (append es) t ∙ sym (append_assoc es ds (table w)),
    AreRows-append es ds qs ps r' r,
  )

module _ {W : Type 0} (store : DiagnosisStore W) (table : W → List Diagnosis)
    (laws : KeepsRows store table) (w : W) where
  abbrev if_accepted : ℕ → List Payload → List Payload
  if_accepted code ps = if nat_eq code 202 then ps else []

  payload-Grows :
      (p : Payload)
      → Grows table w
          (if_accepted (ingest_payload store p w).0 (p ∷ []))
          (ingest_payload store p w).1
  unfolding ingest_payload diagnosis_of
  payload-Grows p = elim (Bool-cases (p.namespace == "")) [
    | inl n ↦ rw n (Grows-none table w _ _ refl refl)
    | inr n ↦ elim (Bool-cases (p.pod == "")) [
      | inl q ↦ rw (n, q) (Grows-none table w _ _ refl refl)
      | inr q ↦ elim (Bool-cases (store.insert (diagnosis_of p) w).0) [
        | inl i ↦
            let (id, at, t) = laws.inserted (diagnosis_of p) w i in
            rw (n, q, i)
              (_ ∷ [], t, ((ne_of_test p.namespace "" n, ne_of_test p.pod "" q, id, at, refl), tt))
        | inr i ↦ rw (n, q, i) (Grows-none table w _ _ refl (laws.failed (diagnosis_of p) w i))
      ]
    ]
  ]

  ingest-Grows :
      (r : Request)
      → Grows table w
          (if_accepted (handle_ingest store r w).0 (read (decode r.body)))
          (handle_ingest store r w).1
  unfolding handle_ingest
  ingest-Grows r = elim (Bool-cases (r.method == "POST")) [
    | inr e ↦ rw e (Grows-none table w _ _ refl refl)
    | inl e ↦ elim (Option-cases (decode r.body)) [
      | inl q ↦ rw (e, q) (Grows-none table w _ _ refl refl)
      | inr (p, q) ↦ rw (e, q) (payload-Grows p)
    ]
  ]

module _ {W : Type 0} (server : Server W) (table : W → List Diagnosis)
    (laws : KeepsRows server.store table) where
  -- An answer to a request, with the state after it.
  abbrev Logs : Call → W → Response × W → Type 0
  Logs call w (response, w') = Grows table w (accepted call response) w'

  elsewhere-Logs :
      (call : Call) (w : W) (result : Response × W)
      → call.path ≢ "/ingest"
      → table result.1 ≡ table w
      → Logs call w result
  elsewhere-Logs call w (response, w') n t =
      Grows-none table w _ w' (rw (test_of_ne call.path "/ingest" n) refl) t

  guarded-Logs :
      (call : Call) (w : W) (next : Handler Response W)
      → Logs call w (next call.request w)
      → Logs call w (authenticated (status_only 401) server.token next call.request w)
  guarded-Logs call w next h =
      authenticated_elim (status_only 401) server.token next call.request w (Logs call w) (λ _. h)
        (Grows-none table w _ w (ground arith) refl)

  routes-Logs : (call : Call) (w : W) → Logs call w (routes server call w)
  unfolding handle_api_list handle_readyz handle_healthz
  routes-Logs call w =
      let unchanged = elsewhere-Logs call w in
      let api = handle_api_list server call.query call.request w in
      routes_elim server call w (Logs call w)
        (λ n. unchanged (with_status (handle_healthz call.request w)) n refl)
        (λ n.
          unchanged (with_status (handle_readyz server.store call.request w)) n
            (laws.reads.pings w))
        (λ p. guarded-Logs call w _ (rw p (ingest-Grows server.store table laws w call.request)))
        (λ n. guarded-Logs call w _ (unchanged api n (laws.reads.lists _ w)))
        (λ n. guarded-Logs call w _ (unchanged (server.web_ui call.path call.request, w) n refl))

  -- The hub's log.
  pub answers-AreRows :
      (calls : List Call) (w : W)
      → (new : List Diagnosis) × (table (answers server calls w).1 ≡ append new (table w))
        × AreRows new (all_accepted calls (answers server calls w).0)
  answers-AreRows [] w = ([], refl, tt)
  answers-AreRows (call ∷ calls) w =
      let (response, v) = routes server call w in
      Grows-more table w (accepted call response) _ v _ (routes-Logs call w)
        (answers-AreRows calls v)
