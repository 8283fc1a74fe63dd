-- ===== src/Hub/Dispatch.antt =====
-- The guard and the mux of internal/hub/server.go, by cases.
use poddoctor.Prelude.{
  String, true, false, ◌≡◌, ◌≢◌, ◌⊎◌, refl, sym, subst, inl, inr, ◌==◌, eq_iff, Bool-cases,
}
use poddoctor.Text.Laws.{ne_of_test}
use poddoctor.Notify.Send.{Request}
use poddoctor.Hub.Access.{bearer}
use poddoctor.Hub.Server.{Handler, handle_healthz, handle_readyz, handle_ingest, authenticated}
use poddoctor.Hub.Api.{Response, Server, Call, handle_api_list, status_only, with_status, routes}

module _ {A W : Type 0} (unauthorized : A) (token : String) (next : Handler A W) (r : Request)
    (w : W) (P : (A × W → Type 0)) where
  -- Behind the guard: what holds of the refusal and, with the token, of the handler.
  pub authenticated_elim :
      ((token ≡ "") ⊎ (bearer r ≡ token) → P (next r w))
      → P (unauthorized, w)
      → P (authenticated unauthorized token next r w)
  unfolding authenticated
  authenticated_elim h n = elim (Bool-cases (token == "")) [
    | inl e ↦ rw e (h (inl ((eq_iff token "").0 e)))
    | inr e ↦ elim (Bool-cases (bearer r == token)) [
      | inl b ↦ rw (e, b) (h (inr ((eq_iff (bearer r) token).0 b)))
      | inr b ↦ rw (e, b) n
    ]
  ]

module _ {W : Type 0} (server : Server W) (call : Call) (w : W) (P : (Response × W → Type 0)) where
  elsewhere :
      (path : String)
      → (call.path == path) ≡ true
      → (path == "/ingest") ≡ false
      → call.path ≢ "/ingest"
  elsewhere path e n =
      subst (λ s. s ≢ "/ingest") (sym ((eq_iff call.path path).0 e)) (ne_of_test path "/ingest" n)

  -- By the path: what holds of the answer of each handler, outside /ingest of those that are reached
  -- there, holds of that of the routes.
  pub routes_elim :
      (call.path ≢ "/ingest" → P (with_status (handle_healthz call.request w)))
      → (call.path ≢ "/ingest" → P (with_status (handle_readyz server.store call.request w)))
      → (call.path ≡ "/ingest"
          → P (
              authenticated
                (status_only 401)
                server.token
                (λ r v. with_status (handle_ingest server.store r v))
                call.request
                w))
      → (call.path ≢ "/ingest"
          → P (
              authenticated
                (status_only 401)
                server.token
                (handle_api_list server call.query)
                call.request
                w))
      → (call.path ≢ "/ingest"
          → P (
              authenticated
                (status_only 401)
                server.token
                (λ r v. (server.web_ui call.path r, v))
                call.request
                w))
      → P (routes server call w)
  unfolding routes
  routes_elim health ready ingest listing ui = elim (Bool-cases (call.path == "/healthz")) [
    | inl a ↦ rw a (health (elsewhere "/healthz" a refl))
    | inr a ↦ elim (Bool-cases (call.path == "/readyz")) [
      | inl b ↦ rw (a, b) (ready (elsewhere "/readyz" b refl))
      | inr b ↦ elim (Bool-cases (call.path == "/ingest")) [
        | inl i ↦ rw (a, b, i) (ingest ((eq_iff call.path "/ingest").0 i))
        | inr i ↦ elim (Bool-cases (call.path == "/api/diagnoses")) [
          | inl l ↦ rw (a, b, i, l) (listing (ne_of_test call.path "/ingest" i))
          | inr l ↦ rw (a, b, i, l) (ui (ne_of_test call.path "/ingest" i))
        ]
      ]
    ]
  ]
