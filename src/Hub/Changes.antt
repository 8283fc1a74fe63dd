-- ===== src/Hub/Changes.antt =====
-- What a request can do to the hub's store (internal/hub/server.go).
use poddoctor.Prelude.{
  String, false, ◌≡◌, ◌≢◌, ◌⊎◌, inl, inr, refl, ap, ◌==◌, eq_iff, arith, Bool-cases, Option-cases,
}
use poddoctor.Notify.Send.{Request}
use poddoctor.Hub.Store.{Diagnosis, DiagnosisStore, Filter}
use poddoctor.Hub.Server.{
  Handler, authenticated, decode, diagnosis_of, ingest_payload, handle_ingest, handle_healthz,
  handle_readyz,
}
use poddoctor.Hub.Access.{bearer}
use poddoctor.Hub.Dispatch.{authenticated_elim, routes_elim}
use poddoctor.Hub.Api.{Response, Server, Call, handle_api_list, routes}

-- A read of the store that leaves a part of its world as it is: the listing and the ping.
pub record IsReading {W X : Type 0} (store : DiagnosisStore W) (part : W → X) : Type 0 where
  pub lists : (f : Filter) (w : W) → part (store.list f w).1 ≡ part w
  pub pings : (w : W) → part (store.ping w).1 ≡ part w

-- A request that may store something: a POST to /ingest, with the hub's token if it has one.
pub record MayStore {W : Type 0} (server : Server W) (call : Call) : Type 0 where
  pub path : call.path ≡ "/ingest"
  pub method : call.request.method ≡ "POST"
  pub token : (server.token ≡ "") ⊎ (bearer call.request ≡ server.token)

-- The insertion of a row that names its namespace and its pod.
abbrev pub Inserts : {W : Type 0} → DiagnosisStore W → W → W → Type 0
Inserts store w w' =
    (d : Diagnosis) × (d.namespace ≢ "") × (d.pod ≢ "") × (w' ≡ (store.insert d w).1)

named : (s : String) → (s == "") ≡ false → s ≢ ""
named s e h = ground (arith, eq_iff s "")

module _ {W : Type 0} (store : DiagnosisStore W) (r : Request) (w : W) where
  payload_changes :
      (p : _) → ((ingest_payload store p w).1 ≡ w) ⊎ Inserts store w (ingest_payload store p w).1
  unfolding ingest_payload diagnosis_of
  payload_changes p = elim (Bool-cases (p.namespace == "")) [
    | inl n ↦ rw n (inl refl)
    | inr n ↦ elim (Bool-cases (p.pod == "")) [
      | inl q ↦ rw (n, q) (inl refl)
      | inr q ↦ rw (n, q) (inr (diagnosis_of p, named p.namespace n, named p.pod q, refl))
    ]
  ]

  ingest_changes :
      ((handle_ingest store r w).1 ≡ w)
      ⊎ ((r.method ≡ "POST") × Inserts store w (handle_ingest store r w).1)
  unfolding handle_ingest
  ingest_changes = elim (Bool-cases (r.method == "POST")) [
    | inr e ↦ rw e (inl refl)
    | inl e ↦ elim (Option-cases (decode r.body)) [
      | inl q ↦ rw (e, q) (inl refl)
      | inr (p, q) ↦
          rw (e, q)
            (elim (payload_changes p) [
              | inl k ↦ inl k
              | inr k ↦ inr ((eq_iff r.method "POST").0 e, k)
            ])
    ]
  ]

module _ {W X : Type 0} (server : Server W) (part : W → X) (reads : IsReading server.store part)
    (call : Call) (w : W) where
  abbrev pub Changes : W → Type 0
  Changes w' = (part w' ≡ part w) ⊎ (MayStore server call × Inserts server.store w w')

  guarded-Changes :
      (unauthorized : Response) (next : Handler Response W)
      → ((server.token ≡ "") ⊎ (bearer call.request ≡ server.token)
          → Changes (next call.request w).1)
      → Changes (authenticated unauthorized server.token next call.request w).1
  guarded-Changes unauthorized next h =
      authenticated_elim unauthorized server.token next call.request w (λ result. Changes result.1)
        h (inl refl)

  ingest_stores :
      call.path ≡ "/ingest"
      → (server.token ≡ "") ⊎ (bearer call.request ≡ server.token)
      → Changes (handle_ingest server.store call.request w).1
  ingest_stores p t = elim (ingest_changes server.store call.request w) [
    | inl k ↦ inl (ap part k)
    | inr (m, k) ↦ inr (record { path = p; method = m; token = t }, k)
  ]

  -- Whatever the request, the hub's routes either leave what the store's listing and ping keep as
  -- it is, or the request is a POST to /ingest, with the hub's token if it has one, and they
  -- leave the store as the insertion of a row does that names its namespace and its pod.
  pub routes-Changes : Changes (routes server call w).1
  unfolding handle_api_list handle_readyz handle_healthz
  routes-Changes =
      routes_elim server call w (λ result. Changes result.1) (λ _. inl refl)
        (λ _. inl (reads.pings w)) (λ p. guarded-Changes _ _ (ingest_stores p))
        (λ _. guarded-Changes _ _ (λ _. inl (reads.lists _ w)))
        (λ _. guarded-Changes _ _ (λ _. inl refl))
