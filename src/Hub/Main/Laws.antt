-- ===== src/Hub/Main/Laws.antt =====
-- What has happened before the hub listens, and whom it then refuses.
use poddoctor.Prelude.{
  String, Bool, true, false, Option, some, ◌≡◌, ◌≢◌, ◌⊎◌, ◌↔◌, inl, inr, refl, ap, sym, ◌==◌,
  if◌then◌else◌, Bool-cases, arith, Option-cases,
}
use poddoctor.Text.Laws.{ne_of_test, test_of_ne}
use poddoctor.Hub.Database.{
  Database, Store, OpenError, migrate, pinged, migrated, open_store, close_store,
}
use poddoctor.Hub.Api.{Call, routes, status_only}
use poddoctor.Hub.Access.{bearer, IsHealth, routes_refuses}
use poddoctor.Hub.Main.{
  Flags, Platform, Fatal, finished, or_env, server_of, opened, start, ended, serve_from, main,
}

-- The database answers a ping, and takes the schema after it.
pub record IsReady {W : Type 0} (db : Database W) (w w' : W) : Type 0 where
  pub answers : (db.ping w).0 ≡ true
  pub schema : migrate db (db.ping w).1 ≡ (true, w')

module _ {W : Type 0} (connect : String → Option (Database W)) (dsn : String) (w w' : W)
    (store : Store W) where
  migrated_lem :
      (db : Database W) (r : Bool × W)
      → migrated db r ≡ (inr store, w')
      → (store ≡ db) × (r ≡ (true, w'))
  migrated_lem db (true, v) e = ground arith
  migrated_lem db (false, v) e = ground arith

  pinged_lem :
      (db : Database W) (r : Bool × W)
      → pinged db r ≡ (inr store, w')
      → (r.0 ≡ true) × (store ≡ db) × (migrate db r.1 ≡ (true, w'))
  pinged_lem db (true, v) e = let (k, m) = migrated_lem db (migrate db v) e in (refl, k, m)
  pinged_lem db (false, v) e = ground arith

  open_store-IsReady :
      open_store connect dsn w ≡ (inr store, w')
      → (db : Database W) × (connect dsn ≡ some db) × (store ≡ db) × IsReady db w w'
  unfolding open_store
  open_store-IsReady e = elim (Option-cases (connect dsn)) [
    | inl n ↦ absurd (cc (rw (n, open_store) at e))
    | inr (db, s) ↦
        let (a, k, m) = pinged_lem db (db.ping w) (rw (s, open_store) at e) in
        (db, s, k, record { answers = a; schema = m })
  ]

module _ {W : Type 0} (p : Platform W) (flags : Flags) where
  -- The token of the hub: that of the flag or, without one, that of the environment.
  abbrev pub token_of : String
  token_of = if flags.token == "" then p.env "PODDOCTOR_HUB_TOKEN" else flags.token

  abbrev pub dsn_of : String
  dsn_of = if flags.dsn == "" then p.env "DATABASE_URL" else flags.dsn

  module _ (store : Store W) (w w' : W) where
    opened_lem :
        (r : (OpenError ⊎ Store W) × W) → opened p flags r ≡ (inr store, w') → r ≡ (inr store, w')
    unfolding opened
    opened_lem (inl x, v) e = ground arith
    opened_lem (inr _, v) e = ground arith

    -- A store is there only with a connection string, and it is the database that this string
    -- connects to, which has answered a ping and taken the schema.
    start-IsReady :
        start p flags w ≡ (inr store, w')
        → (dsn_of ≢ "") × (p.connect dsn_of ≡ some store) × IsReady store w w'
    unfolding start or_env
    start-IsReady e = elim (Bool-cases (dsn_of == "")) [
      | inl n ↦ absurd (cc (rw (n, start) at e))
      | inr n ↦
          let (db, c, k, ready) =
            open_store-IsReady p.connect dsn_of w w' store
              (opened_lem (open_store p.connect dsn_of w) (rw (n, start) at e)) in
          (ne_of_test dsn_of "" n, rw k c, rw k ready)
    ]

    pinged_opens :
        (r : Bool × W)
        → r.0 ≡ true
        → migrate store r.1 ≡ (true, w')
        → opened p flags (pinged store r) ≡ (inr store, w')
    unfolding opened
    pinged_opens (true, v) a m = rw m
    pinged_opens (false, v) a m = cc

    IsReady-start :
        dsn_of ≢ ""
        → p.connect dsn_of ≡ some store
        → IsReady store w w'
        → start p flags w ≡ (inr store, w')
    unfolding start opened open_store or_env
    IsReady-start n c ready =
        rw (test_of_ne dsn_of "" n, open_store, c)
          (pinged_opens (store.ping w) ready.answers ready.schema)

  -- The calls of a run that finishes, from one world to another.
  pub record IsServed (w w' : W) : Type 0 where
    pub store : Store W
    pub ready : W
    pub listened : W
    pub named : dsn_of ≢ ""
    pub connected : p.connect dsn_of ≡ some store
    pub prepared : IsReady store w ready
    pub served :
        p.listen flags.listen_addr (routes (server_of p flags store)) ready ≡ (true, listened)
    pub closed : w' ≡ (close_store store listened).1

  ended_lem :
      (store : Store W) (w' : W) (x : Bool × W)
      → ended p flags store x ≡ (finished, w')
      → (x ≡ (true, x.1)) × (w' ≡ (close_store store x.1).1)
  ended_lem store w' (true, v) e = (refl, ap (λ x. x.1) (sym e))
  ended_lem store w' (false, v) e = ground arith

  serve_from_lem :
      (w w' : W) (x : (Fatal ⊎ Store W) × W)
      → start p flags w ≡ x
      → serve_from p flags x ≡ (finished, w')
      → IsServed w w'
  serve_from_lem w w' (inl f, v) q e = ground arith
  serve_from_lem w w' (inr store, v) q e =
      let (n, c, ready) = start-IsReady store w v q in
      let (l, closed) = ended_lem store w' _ e in
      record {
        store = store;
        ready = v;
        listened = _;
        named = n;
        connected = c;
        prepared = ready;
        served = l;
        closed = closed;
      }

  -- The hub's main finishes exactly if there is a connection string, the database that it
  -- connects to answers a ping and takes the schema, and the server over this database, on what
  -- that has left, ends its listening without an error or by a shutdown; closing the database is
  -- then its last call.
  pub main_finishes_iff : (w w' : W) → (main p flags w ≡ (finished, w')) ↔ IsServed w w'
  unfolding main
  main_finishes_iff w w' = (
    serve_from_lem w w' (start p flags w) refl,
    λ s.
        rw (IsReady-start s.store w s.ready s.named s.connected s.prepared, s.served, s.closed)
          refl,
  )

  -- The server that the hub's main makes of a token, from its flag or, without one, from the
  -- environment, refuses every request with another token by status 401, the paths of health
  -- aside, and leaves the state as it is.
  pub routes-server_of_refuses :
      (store : Store W) (call : Call) (v : W)
      → token_of ≢ ""
      → ¬ IsHealth call.path
      → bearer call.request ≢ token_of
      → routes (server_of p flags store) call v ≡ (status_only 401, v)
  unfolding server_of or_env
  routes-server_of_refuses store call v t h b =
      routes_refuses (server_of p flags store) call v h t b
