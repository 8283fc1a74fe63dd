-- ===== src/Operator/Tests.antt =====
-- The operator with the flags that are not given, over calls that are counted.
use poddoctor.Prelude.{ℕ, suc, true, false, none, some, [], ◌∷◌, ◌≡◌, ◌↔◌, refl, inl, inr}
use poddoctor.Api.{PodDiagnosis}
use poddoctor.Diagnosis.{Result}
use poddoctor.Text.Laws.{ne_of_test}
use poddoctor.Notify.Router.{Route, Config, Router, build_notify_router, fallback, route}
use poddoctor.Notify.Router.Laws.{Answers, here}
use poddoctor.Operator.Routed.{default_of, router_of-First}
use poddoctor.Controller.Pods.{Pod}
use poddoctor.Controller.Reconcile.{Env, State, notify}
use poddoctor.Operator.{
  dashboard_result, served, server_closed, other, Flags, Platform, default_flags, router_of,
  reconciler_of, or_exit, add_dashboard, run, main, finished, failed, no_dashboard,
}
use poddoctor.Operator.Order.{IsStarted, main_iff}
use poddoctor.Operator.Quiet.{notify-reconciler_of}

abbrev platform : Platform ℕ
platform = record {
  env = λ _. "";
  new_manager = λ _ _ n. (true, suc n);
  new_client_set = λ _ n. (true, suc n);
  read_file = λ path. inl path;
  unmarshal = λ _. inl "not a configuration";
  register = λ _ _ n. (true, suc n);
  add_dashboard = λ _ _ n. (false, suc n);
  add_healthz_check = λ n. (true, suc n);
  add_readyz_check = λ n. (true, suc n);
  start = λ n. (true, suc n);
}

no_config : default_flags.notify_config_path ≡ ""
unfolding default_flags
no_config = refl

no_url : default_flags.webhook_url ≡ ""
unfolding default_flags
no_url = refl

notify-reconciler_of_example :
    (router : Router) × (router_of platform default_flags ≡ inr router)
    × ((env : Env ℕ) (pod : Pod) (result : Result) (d : PodDiagnosis) (s : State ℕ)
        → notify env (reconciler_of default_flags router) pod result d s ≡ s)
notify-reconciler_of_example = notify-reconciler_of platform default_flags no_config no_url

-- The dashboard fails, and nothing after it runs.
no_dashboard_test : main platform default_flags 0 ≡ (failed no_dashboard, 4)
unfolding main default_flags router_of build_notify_router run add_dashboard or_exit
no_dashboard_test = refl

-- With the dashboard switched off the checks follow, and the start.
without_dashboard : main platform (record default_flags { dashboard_addr = "0" }) 0 ≡ (finished, 6)
unfolding main default_flags router_of build_notify_router run add_dashboard or_exit
without_dashboard = refl

abbrev headless : Flags
headless = record default_flags { dashboard_addr = "0" }

main_iff_example : (main platform headless 0 ≡ (finished, 6)) ↔ IsStarted platform headless 0 6
main_iff_example = main_iff platform headless 0 6

-- A dashboard that was shut down is no error, one that cannot listen is.
stopped :
    (dashboard_result (served (some server_closed)) ≡ none)
    × (dashboard_result (served (some other)) ≡ some other)
unfolding dashboard_result
stopped = (refl, refl)

-- A file that sends the namespace of a team to the team, and nothing else anywhere.
abbrev team : Route
team = record {
  namespaces = "shop" ∷ [];
  webhook_url = "http://team";
  format = "slack";
  token = "";
}

abbrev team_config : Config
team_config = record {
  default_webhook_url = "";
  default_format = "";
  default_token = "";
  routes = team ∷ [];
}

abbrev with_file : Platform ℕ
with_file = record platform { read_file = λ _. inr []; unmarshal = λ _. inr team_config }

abbrev filed : Flags
filed = record default_flags { notify_config_path = "notify.yaml" }

router_of-First_example :
    (router : Router) × (router_of with_file filed ≡ inr router)
    × (fallback router ≡ default_of team_config)
    × Answers router (some team) (route (some router) "shop")
router_of-First_example =
    router_of-First with_file filed [] team_config "shop" (some team)
      (ne_of_test "notify.yaml" "" refl) refl refl (here (inl (inr refl)))
