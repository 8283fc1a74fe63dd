-- ===== src/Hub/Listing.antt =====
-- From a notification to the hub's listing, over a table.
mod Tests
use poddoctor.Prelude.{
  suc, zero, String, Bool, true, false, Option, none, some, List, ◌∷◌, ◌≡◌, ◌≢◌, ◌≤ℤ◌, refl, sym,
  ap, ◌∙◌, ℤ, pos, negsuc, pos_part, ◌-◌, map, take, if◌then◌else◌, arith,
}
use poddoctor.Api.{Time}
use poddoctor.Json.{Json, arr}
use poddoctor.Notify.Router.{Format, format_slack}
use poddoctor.Notify.Payload.{Notification, payload_of}
use poddoctor.Notify.Send.{Request, SendError, bad_status, send}
use poddoctor.Hub.Store.{Diagnosis, Filter, list_limit}
use poddoctor.Hub.Api.{
  Server, Call, filter_from_query, api_record, api_json, values, list_response, handle_api_list,
  routes, status_only,
}
use poddoctor.Hub.Access.{bearer, authenticated_right}
use poddoctor.Hub.Limit.{list_limit_bounds}
use poddoctor.Hub.Ingest.{IsPayload, row_of}
use poddoctor.Hub.Delivery.{hub_client, send_rows}
use poddoctor.Hub.Database.{Database, store_of}
use poddoctor.Hub.Database.Table.{IsTable, filter, matches, listing, list_lem}

-- A request of the listing.
abbrev pub list_call : List (String × String) → Request → Call
list_call q r = record { path = "/api/diagnoses"; query = q; request = r }

take-first :
    {A : Type 0} (x : A) (xs : List A) (n : ℤ)
    → pos 1 ≤ℤ n
    → take (pos_part n) (x ∷ xs) ≡ x ∷ take (pos_part n - 1) xs
take-first x xs (pos zero) h = absurd (omega arith)
take-first x xs (pos (suc n)) h = ap (λ m. x ∷ take m xs) (omega arith)
take-first x xs (negsuc n) h = absurd (omega arith)

module _ {W : Type 0} (server : Server W) (db : Database W) (table : W → List Diagnosis)
    (laws : IsTable db table) (stores : server.store ≡ store_of db) where
  abbrev pub listed_body : List Diagnosis → Option Json
  listed_body ds =
      some (arr (values (map (λ d. api_json server.stamp (api_record server.tracing d)) ds)))

  listed_ok :
      (f : Filter) (w : W) (o : Option (List Diagnosis))
      → (server.store.list f w).0 ≡ o
      → (list_response server.tracing server.stamp o).status ≡ 200
      → (list_response server.tracing server.stamp o).body ≡ listed_body (listing db table laws f w)
  unfolding list_response
  listed_ok f w none q e = absurd (omega arith)
  listed_ok f w (some ds) q e =
      ap listed_body (list_lem db table laws f w ds (sym (ap (λ s. (s.list f w).0) stores) ∙ q))

  -- What a listing with the hub's token answers, when it answers.
  pub routes_lists :
      (q : List (String × String)) (r : Request) (w : W)
      → bearer r ≡ server.token
      → (routes server (list_call q r) w).0.status ≡ 200
      → (routes server (list_call q r) w).0.body
        ≡ listed_body (listing db table laws (filter_from_query q) w)
  unfolding routes
  routes_lists q r w b =
      rw (authenticated_right (status_only 401) server.token (handle_api_list server q) r w b)
        (unfold handle_api_list in listed_ok (filter_from_query q) w _ refl)

  inserted_ok :
      (b : Bool) (v w : W)
      → ◌≡◌ {A = Option SendError × W} (if b then none else some (bad_status 500), v) (none, w)
      → (b ≡ true) × (v ≡ w)
  inserted_ok true v w e = (refl, ap (λ x. x.1) e)
  inserted_ok false v w e = absurd (cc (ap (λ x. x.0) e))

  module _ (url : String) (format : Format) (n : Notification) (w w' : W) where
    -- The row that a successful Send leaves on top of the table.
    sent_row :
        url ≢ ""
        → format ≢ format_slack
        → IsPayload (payload_of n)
        → n.diag.spec.pod_namespace ≢ ""
        → n.diag.spec.pod_name ≢ ""
        → send (hub_client server) url format server.token n w ≡ (none, w')
        → (id : ℤ) × (at : Time) × (table w'
            ≡ record (row_of n) { id = id; received_at = at } ∷ table w)
    unfolding store_of
    sent_row u f p ns name e =
        let (b, v) = inserted_ok _ _ w' (sym (send_rows server url format n w u f p ns name) ∙ e) in
        let (id, at, t) =
          laws.inserted (row_of n) w (sym (ap (λ s. (s.insert (row_of n) w).0) stores) ∙ b) in
        (id, at, ap table (sym v ∙ ap (λ s. (s.insert (row_of n) w).1) stores) ∙ t)

    -- When a notification whose numbers fit their Go types and that names its namespace and pod
    -- is sent, with the hub's token and a format that is not Slack, to a non-empty URL, the
    -- /ingest of a hub whose database keeps a table, over a network that delivers requests as
    -- they are, and the Send succeeds: a listing with the hub's token whose filter the row of the
    -- notification meets, and that is answered by status 200, begins with this row, with the id
    -- and the time that the database gave it, and goes on with the rows of the filter that were
    -- in the table before, up to the limit.
    pub send_lists :
        (q : List (String × String)) (r : Request)
        → url ≢ ""
        → format ≢ format_slack
        → IsPayload (payload_of n)
        → n.diag.spec.pod_namespace ≢ ""
        → n.diag.spec.pod_name ≢ ""
        → send (hub_client server) url format server.token n w ≡ (none, w')
        → bearer r ≡ server.token
        → matches (filter_from_query q) (row_of n) ≡ true
        → (routes server (list_call q r) w').0.status ≡ 200
        → (id : ℤ) × (at : Time) × ((routes server (list_call q r) w').0.body
            ≡ listed_body (
                record (row_of n) { id = id; received_at = at }
                ∷ take
                    (pos_part (list_limit (filter_from_query q)) - 1)
                    (filter (matches (filter_from_query q)) (table w))))
    send_lists q r u f p ns name e b m ok =
        let (id, at, t) = sent_row u f p ns name e in
        let fq = filter_from_query q in
        let top : Diagnosis = record (row_of n) { id = id; received_at = at } in
        (
          id,
          at,
          routes_lists q r w' b ok
              ∙ ap
                  (λ rows. listed_body (take (pos_part (list_limit fq)) (filter (matches fq) rows)))
                  t
              ∙ ap (λ rows. listed_body (take (pos_part (list_limit fq)) rows)) (rw m refl)
              ∙ ap listed_body (
                  take-first top (filter (matches fq) (table w)) (list_limit fq)
                    (list_limit_bounds fq).0.0),
        )
