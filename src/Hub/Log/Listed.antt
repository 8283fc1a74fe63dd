-- ===== src/Hub/Log/Listed.antt =====
-- The listing of internal/hub/server.go after a sequence of requests, over the store of
-- internal/hub/store.go.
use mathlib.Core.List.{◌++◌ as append}
use poddoctor.Prelude.{String, false, List, ◌≡◌, sym, ap, ◌∙◌, subst, take, pos_part}
use poddoctor.Hub.Store.{Diagnosis, Filter, list_limit}
use poddoctor.Notify.Send.{Request}
use poddoctor.Hub.Query.{list_query}
use poddoctor.Hub.Database.{Database, insert_query, store_of}
use poddoctor.Hub.Database.Table.{IsTable, filter, matches}
use poddoctor.Hub.Access.{bearer}
use poddoctor.Hub.Api.{Server, Call, filter_from_query, routes}
use poddoctor.Hub.Listing.{list_call, listed_body, routes_lists}
use poddoctor.Hub.Log.{answers, all_accepted, AreRows, KeepsRows, answers-AreRows}

-- What fails, asks or pings leaves the table as it is.
pub record IsAtomic {W : Type 0} (db : Database W) (table : W → List Diagnosis) : Type 0 where
  pub failed :
      (d : Diagnosis) (w : W)
      → (db.exec (insert_query d) w).0 ≡ false
      → table (db.exec (insert_query d) w).1 ≡ table w
  pub asked : (f : Filter) (w : W) → table (db.query (list_query f) w).1 ≡ table w
  pub pinged : (w : W) → table (db.ping w).1 ≡ table w

module _ {W : Type 0} (server : Server W) (db : Database W) (table : W → List Diagnosis)
    (laws : IsTable db table) (atomic : IsAtomic db table)
    (stores : server.store ≡ store_of db) where
  store-KeepsRows : KeepsRows server.store table
  unfolding store_of
  store-KeepsRows =
      subst (λ store. KeepsRows store table) (sym stores)
        (record {
          inserted = laws.inserted;
          failed = atomic.failed;
          reads = record { lists = atomic.asked; pings = atomic.pinged };
        })

  -- Over a database that keeps its rows in a table and leaves it alone when an insertion fails,
  -- when it lists and when it is pinged, after any sequence of requests to the hub: a listing
  -- with the hub's token that is answered by status 200 shows, newest first and up to its limit,
  -- those that meet its filter of the rows of the accepted notifications followed by the earlier
  -- rows; the accepted notifications are those that the sequence posted to /ingest and that were
  -- answered by status 202, one row for each, and each names its namespace and pod.
  pub answers_listed :
      (calls : List Call) (w : W) (q : List (String × String)) (r : Request)
      → bearer r ≡ server.token
      → (routes server (list_call q r) (answers server calls w).1).0.status ≡ 200
      → (new : List Diagnosis) × AreRows new (all_accepted calls (answers server calls w).0)
        × ((routes server (list_call q r) (answers server calls w).1).0.body
            ≡ listed_body server db table laws stores (
                take
                  (pos_part (list_limit (filter_from_query q)))
                  (filter (matches (filter_from_query q)) (append new (table w)))))
  answers_listed calls w q r b ok =
      let (new, t, rows) = answers-AreRows server table store-KeepsRows calls w in
      let limited : List Diagnosis → List Diagnosis = λ ds.
        take (pos_part (list_limit (filter_from_query q)))
          (filter (matches (filter_from_query q)) ds) in
      (
        new,
        rows,
        routes_lists server db table laws stores q r (answers server calls w).1 b ok
            ∙ ap (λ ds. listed_body server db table laws stores (limited ds)) t,
      )
