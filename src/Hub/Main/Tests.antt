-- ===== src/Hub/Main/Tests.antt =====
-- The process over a database that counts its calls.
use poddoctor.Prelude.{
  ℕ, suc, true, none, some, [], ◌≡◌, ◌≢◌, ◌↔◌, refl, inl, inr, ◌==◌, if◌then◌else◌,
}
use poddoctor.Text.Laws.{ne_of_test}
use poddoctor.Hub.Database.{Database, migrate, open_store, close_store}
use poddoctor.Hub.Server.{trim_prefix}
use poddoctor.Hub.Api.{Call, routes, status_only}
use poddoctor.Hub.Access.{IsHealth, bearer}
use poddoctor.Hub.Main.{
  Flags, Platform, no_dsn, finished, fatal, or_env, server_of, opened, start, main,
}
use poddoctor.Hub.Main.Laws.{IsServed, token_of, main_finishes_iff, routes-server_of_refuses}

abbrev database : Database ℕ
database = record {
  ping = λ n. (true, suc n);
  exec = λ _ n. (true, suc n);
  query = λ _ n. (some [], suc n);
  close = λ n. (true, suc n);
}

abbrev platform : Platform ℕ
platform = record {
  env = λ name. if name == "DATABASE_URL" then "postgres://db" else "secret";
  connect = λ _. some database;
  stamp = λ _. "now";
  web_ui = λ _ _. record { status = 200; body = none };
  listen = λ _ _ n. (true, n);
}

-- No flag is set but the address.
abbrev flags : Flags
flags = record {
  listen_addr = ":8090";
  dsn = "";
  token = "";
  grafana_url = "";
  tempo_datasource_uid = "";
}

token_set : token_of platform flags ≢ ""
unfolding or_env
token_set = ne_of_test "secret" "" refl

-- The database is pinged, given the schema, served and closed.
main_finishes_iff_example : (main platform flags 0 ≡ (finished, 3)) ↔ IsServed platform flags 0 3
main_finishes_iff_example = main_finishes_iff platform flags 0 3

finishes : main platform flags 0 ≡ (finished, 3)
unfolding main start or_env open_store opened migrate close_store
finishes = refl

abbrev listing : Call
listing = record {
  path = "/api/diagnoses";
  query = [];
  request = record {
    method = "GET";
    url = "http://hub/api/diagnoses";
    content_type = "";
    authorization = "Bearer guess";
    body = none;
  };
}

listed : ¬ IsHealth listing.path
listed (inl e) = ne_of_test "/api/diagnoses" "/healthz" refl e
listed (inr e) = ne_of_test "/api/diagnoses" "/readyz" refl e

guessed : bearer listing.request ≢ token_of platform flags
unfolding or_env trim_prefix
guessed = ne_of_test "guess" "secret" refl

routes-server_of_refuses_example :
    routes (server_of platform flags database) listing 7 ≡ (status_only 401, 7)
routes-server_of_refuses_example =
    routes-server_of_refuses platform flags database listing 7 token_set listed guessed

-- Without a connection string nothing is called.
no_dsn_test : main (record platform { env = λ _. "" }) flags 0 ≡ (fatal no_dsn, 0)
unfolding main start or_env
no_dsn_test = refl
