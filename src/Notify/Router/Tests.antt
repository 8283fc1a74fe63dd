-- ===== src/Notify/Router/Tests.antt =====
-- A router with a team's route and a catch-all.
use poddoctor.Prelude.{some, [], ◌∷◌, ◌≡◌, inl, inr, refl, true}
use poddoctor.Text.Laws.{ne_of_test}
use poddoctor.Notify.Router.{Route, Router, route, route_from, covers, fallback}
use poddoctor.Notify.Router.Laws.{Answers, Covers, here, later, route-First}

abbrev team : Route
team = record { namespaces = "shop" ∷ []; webhook_url = ""; format = ""; token = "" }

abbrev everyone : Route
everyone = record {
  namespaces = "*" ∷ [];
  webhook_url = "http://hub/ingest";
  format = "generic";
  token = "t";
}

abbrev two_routes : Router
two_routes = record {
  routes = team ∷ everyone ∷ [];
  fallback_url = "http://default";
  fallback_format = "slack";
  fallback_token = "";
}

not_shop : ¬ Covers "web" team
not_shop (inl (inl e)) = ne_of_test "shop" "*" refl e
not_shop (inl (inr e)) = ne_of_test "shop" "web" refl e
not_shop (inr h) = h

route-First_example : Answers two_routes (some everyone) (route (some two_routes) "web")
route-First_example =
    route-First "web" two_routes (some everyone) (later not_shop (here (inl (inl refl))))

web_ok : (route (some two_routes) "web").ok ≡ true
unfolding route route_from covers fallback
web_ok = refl
