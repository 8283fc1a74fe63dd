-- ===== src/Hub/Access.antt =====
-- Who reaches the hub's endpoints.
use poddoctor.Prelude.{String, ◌≡◌, ◌≢◌, ◌⊎◌, inl, inr, refl, ◌∙◌, sym, ◌==◌, eq_refl, Bool-cases}
use poddoctor.Text.Laws.{test_of_ne}
use poddoctor.Notify.Send.{Request}
use poddoctor.Hub.Server.{Handler, trim_prefix, authenticated}
use poddoctor.Hub.Api.{Response, status_only, Server, Call, handle_api_list, routes}

-- The token of a request.
abbrev pub bearer : Request → String
bearer r = trim_prefix r.authorization "Bearer "

-- The hub as it is with no token set.
abbrev pub opened : {W : Type 0} → Server W → Server W
opened server = record server { token = "" }

abbrev pub IsHealth : String → Type 0
IsHealth path = (path ≡ "/healthz") ⊎ (path ≡ "/readyz")

module _ {A W : Type 0} (unauthorized : A) (token : String) (next : Handler A W) (r : Request)
    (w : W) where
  pub authenticated_right : bearer r ≡ token → authenticated unauthorized token next r w ≡ next r w
  unfolding authenticated
  authenticated_right e = elim (Bool-cases (token == "")) [
    | inl t ↦ rw t
    | inr t ↦ rw (t, e, eq_refl token)
  ]

  authenticated_open : authenticated unauthorized "" next r w ≡ next r w
  unfolding authenticated
  authenticated_open = refl

  authenticated_wrong :
      token ≢ "" → bearer r ≢ token → authenticated unauthorized token next r w ≡ (unauthorized, w)
  unfolding authenticated
  authenticated_wrong t n = rw (test_of_ne token "" t, test_of_ne (bearer r) token n)

module _ {W : Type 0} (server : Server W) (call : Call) (w : W) where
  -- What all three guarded endpoints have, the routes have on a path that is none of health.
  guarded_routes :
      (P : (Response × W → Type 0))
      → ¬ IsHealth call.path
      → ((next : Handler Response W)
          → P (authenticated (status_only 401) server.token next call.request w))
      → P (routes server call w)
  unfolding routes handle_api_list
  guarded_routes P h g =
      rw
        (
          test_of_ne call.path "/healthz" (λ e. h (inl e)),
          test_of_ne call.path "/readyz" (λ e. h (inr e)),
        )
        (elim (Bool-cases (call.path == "/ingest")) [
          | inl i ↦ rw i (g _)
          | inr i ↦ elim (Bool-cases (call.path == "/api/diagnoses")) [
            | inl l ↦ rw (i, l) (g _)
            | inr l ↦ rw (i, l) (g _)
          ]
        ])

  -- Every endpoint but the two of health refuses a request with another token than the hub's by status
  -- 401, and leaves the store alone.
  pub routes_refuses :
      ¬ IsHealth call.path
      → server.token ≢ ""
      → bearer call.request ≢ server.token
      → routes server call w ≡ (status_only 401, w)
  routes_refuses h t n =
      guarded_routes (λ x. x ≡ (status_only 401, w)) h
        (λ next. authenticated_wrong (status_only 401) server.token next call.request w t n)

  -- On every path a request with the hub's token is answered as by a hub with no token set.
  routes_admits :
      bearer call.request ≡ server.token → routes server call w ≡ routes (opened server) call w
  unfolding routes handle_api_list
  routes_admits e = elim (Bool-cases (call.path == "/healthz")) [
    | inl a ↦ rw a
    | inr a ↦ elim (Bool-cases (call.path == "/readyz")) [
      | inl b ↦ rw (a, b)
      | inr b ↦ elim (Bool-cases (call.path == "/ingest")) [
        | inl i ↦ rw (a, b, i) (same _)
        | inr i ↦ elim (Bool-cases (call.path == "/api/diagnoses")) [
          | inl l ↦ rw (a, b, i, l) (same _)
          | inr l ↦ rw (a, b, i, l) (same _)
        ]
      ]
    ]
  ]
    where
      same :
          (next : Handler Response W)
          → authenticated (status_only 401) server.token next call.request w
            ≡ authenticated (status_only 401) "" next call.request w
      same next =
          authenticated_right (status_only 401) server.token next call.request w e
          ∙ sym (authenticated_open (status_only 401) "" next call.request w)
