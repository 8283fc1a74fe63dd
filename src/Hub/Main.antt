-- ===== src/Hub/Main.antt =====
-- cmd/hub/main.go: the hub's process. The flags are read already; the environment, sql.Open, the
-- listener and what the server takes from elsewhere are parameters. The shutdown on a signal is the
-- listener's: ListenAndServe then ends with ErrServerClosed.
pub mod Laws
mod Tests
use poddoctor.Prelude.{String, Bool, true, false, ◌⊎◌, inl, inr, Option, ◌==◌, if◌then◌else◌}
use poddoctor.Notify.Send.{Request}
use poddoctor.Hub.Database.{Database, Store, OpenError, open_store, store_of, close_store}
use poddoctor.Hub.Api.{Response, Stamp, Server, new_server, Call, routes}

pub record Flags : Type 0 where
  pub listen_addr : String
  pub dsn : String
  pub token : String
  pub grafana_url : String
  pub tempo_datasource_uid : String

-- A flag that is not set is taken from the environment.
unfoldable pub or_env : (String → String) → String → String → String
or_env env flag name = if flag == "" then env name else flag

-- The calls of log.Fatal.
pub data Fatal : Type 0 where
  no_dsn serve : Fatal
  connecting : OpenError → Fatal

-- How `main` ends.
pub data Exit : Type 0 where
  finished : Exit
  fatal : Fatal → Exit

-- What the process works with. `listen` answers whether it ended without an error, or with
-- http.ErrServerClosed.
pub record Platform (W : Type 0) : Type 0 where
  pub env : String → String
  pub connect : String → Option (Database W)
  pub stamp : Stamp
  pub web_ui : String → Request → Response
  pub listen : String → (Call → W → Response × W) → W → Bool × W

module _ {W : Type 0} (p : Platform W) (flags : Flags) where
  -- The server over the store.
  unfoldable pub server_of : Store W → Server W
  unfolding or_env
  server_of store =
      new_server (store_of store) (or_env p.env flags.token "PODDOCTOR_HUB_TOKEN")
        (record {
          grafana_url = flags.grafana_url;
          tempo_datasource_uid = flags.tempo_datasource_uid;
        })
        p.stamp p.web_ui

  unfoldable pub opened : (OpenError ⊎ Store W) × W → (Fatal ⊎ Store W) × W
  opened (inl e, w) = (inl (connecting e), w)
  opened (inr store, w) = (inr store, w)

  -- From the flags to the store, or to the exit before there is one.
  unfoldable pub start : W → (Fatal ⊎ Store W) × W
  unfolding or_env
  start w =
      let dsn = or_env p.env flags.dsn "DATABASE_URL" in
      if dsn == "" then (inl no_dsn, w) else opened (open_store p.connect dsn w)

  -- The deferred Close runs where `main` returns; log.Fatal exits without it.
  abbrev pub ended : Store W → Bool × W → Exit × W
  ended store (true, w) = (finished, (close_store store w).1)
  ended store (false, w) = (fatal serve, w)

  abbrev pub serve_from : (Fatal ⊎ Store W) × W → Exit × W
  serve_from (inl e, w) = (fatal e, w)
  serve_from (inr store, w) = ended store (p.listen flags.listen_addr (routes (server_of store)) w)

  unfoldable pub main : W → Exit × W
  unfolding close_store
  main w = serve_from (start w)
