-- ===== src/Operator.antt =====
-- cmd/main.go: the operator's process. The flags are read already, Namespaces has what it makes of
-- --namespace; the environment, controller-runtime's manager and client-go are parameters. Logging is
-- left out. A call on the manager answers whether it succeeded.
pub mod Namespaces
pub mod Quiet
pub mod Order
pub mod Routed
mod Tests
use poddoctor.Prelude.{
  ℕ, String, Bool, true, false, Option, none, some, List, ◌⊎◌, inl, inr, ◌==◌, ℤ, pos, ◌*◌,
  if◌then◌else◌,
}
use poddoctor.Api.{Duration}
use poddoctor.Tracelink
use poddoctor.Notify.Router.{Format, Config, Router, load_config, build_notify_router}
use poddoctor.Controller.Evidence.{second}
use poddoctor.Controller.Setup.{Float, Setup, set_up}
use poddoctor.Controller.Reconcile.{Reconciler}
use poddoctor.Operator.Namespaces.{watched}

pub record Flags : Type 0 where
  pub metrics_addr : String
  pub probe_addr : String
  pub enable_leader_election : Bool
  pub watch_namespace : String
  pub log_tail_lines : ℤ
  pub rollout_window : Duration
  pub dashboard_addr : String
  pub cluster_name : String
  pub webhook_url : String
  pub webhook_format : Format
  pub webhook_token : String
  pub notify_config_path : String
  pub alert_group_window : Duration
  pub evidence_qps : Float
  pub kube_api_qps : Float
  pub kube_api_burst : ℤ
  pub grafana_url : String
  pub tempo_datasource_uid : String

-- The values of the flags that are not given.
unfoldable pub default_flags : Flags
default_flags = record {
  metrics_addr = ":8080";
  probe_addr = ":8081";
  enable_leader_election = false;
  watch_namespace = "";
  log_tail_lines = pos 50;
  rollout_window = pos (600 * second);
  dashboard_addr = ":8082";
  cluster_name = "";
  webhook_url = "";
  webhook_format = "generic";
  webhook_token = "";
  notify_config_path = "";
  alert_group_window = pos (120 * second);
  evidence_qps = record { mantissa = pos 20; shift = 0 };
  kube_api_qps = record { mantissa = pos 50; shift = 0 };
  kube_api_burst = pos 100;
  grafana_url = "";
  tempo_datasource_uid = "";
}

-- ctrl.Options, as they are set.
pub record ManagerOptions : Type 0 where
  pub metrics_addr : String
  pub probe_addr : String
  pub leader_election : Bool
  pub leader_election_id : String
  pub release_on_cancel : Bool
  pub default_namespaces : Option (List String)

unfoldable pub manager_options : Flags → ManagerOptions
manager_options flags = record {
  metrics_addr = flags.metrics_addr;
  probe_addr = flags.probe_addr;
  leader_election = flags.enable_leader_election;
  leader_election_id = "poddoctor.poddoctor.dev";
  release_on_cancel = true;
  default_namespaces = watched flags.watch_namespace;
}

-- The client's configuration; its rate is rounded to a float32 by who takes it.
pub record RestConfig : Type 0 where
  pub qps : Float
  pub burst : ℤ

abbrev pub rest_config : Flags → RestConfig
rest_config flags = record { qps = flags.kube_api_qps; burst = flags.kube_api_burst }

-- The fields of the reconciler that SetupWithManager defaults, as `main` gives them.
unfoldable pub setup_of : Flags → Setup
setup_of flags = record {
  settings = record {
    log_tail_lines = flags.log_tail_lines;
    rollout_window = flags.rollout_window;
  };
  grouper = none;
  alert_group_window = flags.alert_group_window;
  limiter = none;
  evidence_qps = flags.evidence_qps;
}

-- The reconciler once it is set up.
unfoldable pub reconciler_of : Flags → Router → Reconciler
unfolding setup_of
reconciler_of flags router = record {
  settings = (set_up (setup_of flags)).settings;
  cluster_name = flags.cluster_name;
  has_recorder = true;
  notify_router = some router;
}

-- What `main` reports before it exits with status 1.
pub data Failure : Type 0 where
  no_manager no_client_set no_notify_config no_controller : Failure
  no_dashboard no_health_check no_ready_check not_running : Failure

pub data Exit : Type 0 where
  finished : Exit
  failed : Failure → Exit

pub record Platform (W : Type 0) : Type 0 where
  pub env : String → String
  pub new_manager : RestConfig → ManagerOptions → W → Bool × W
  pub new_client_set : RestConfig → W → Bool × W
  -- os.ReadFile and yaml.Unmarshal, with the text of an error
  pub read_file : String → String ⊎ List ℕ
  pub unmarshal : List ℕ → String ⊎ Config
  pub register : Reconciler → Setup → W → Bool × W
  pub add_dashboard : String → Tracelink.Config → W → Bool × W
  pub add_healthz_check : W → Bool × W
  pub add_readyz_check : W → Bool × W
  pub start : W → Bool × W

-- An `if err != nil` that exits.
unfoldable pub or_exit : {W : Type 0} → Failure → Bool × W → (W → Exit × W) → Exit × W
or_exit failure (true, w) next = next w
or_exit failure (false, w) next = (failed failure, w)

-- How the dashboard ends: its context is done, and Shutdown returns an error or none; or ListenAndServe
-- returns.
pub data ServeError : Type 0 where
  server_closed other : ServeError

pub data Stopped : Type 0 where
  cancelled : Option ServeError → Stopped
  served : Option ServeError → Stopped

-- What the runnable of the dashboard returns to the manager.
unfoldable pub dashboard_result : Stopped → Option ServeError
dashboard_result (cancelled shutdown) = shutdown
dashboard_result (served (some server_closed)) = none
dashboard_result (served (some other)) = some other
dashboard_result (served none) = none

module _ {W : Type 0} (p : Platform W) (flags : Flags) where
  abbrev pub webhook_token : String
  webhook_token =
      if flags.webhook_token == "" then p.env "PODDOCTOR_WEBHOOK_TOKEN" else flags.webhook_token

  unfoldable pub router_of : String ⊎ Router
  router_of =
      build_notify_router (load_config p.read_file p.unmarshal) flags.notify_config_path
        flags.webhook_url flags.webhook_format webhook_token

  unfoldable pub add_dashboard : W → Bool × W
  add_dashboard w =
      if flags.dashboard_addr == "0"
      then (true, w)
      else p.add_dashboard flags.dashboard_addr
          (record {
            grafana_url = flags.grafana_url;
            tempo_datasource_uid = flags.tempo_datasource_uid;
          })
          w

  -- From the reconciler on.
  unfoldable pub run : Router → W → Exit × W
  unfolding reconciler_of add_dashboard or_exit
  run router w =
      or_exit no_controller (p.register (reconciler_of flags router) (set_up (setup_of flags)) w)
        (λ w. or_exit no_dashboard (add_dashboard w) (λ w.
          or_exit no_health_check (p.add_healthz_check w) (λ w.
            or_exit no_ready_check (p.add_readyz_check w)
              (λ w. or_exit not_running (p.start w) (λ w. (finished, w))))))

  abbrev pub run_routed : String ⊎ Router → W → Exit × W
  run_routed (inl e) w = (failed no_notify_config, w)
  run_routed (inr router) w = run router w

  unfoldable pub main : W → Exit × W
  unfolding or_exit manager_options router_of
  main w = or_exit no_manager (p.new_manager (rest_config flags) (manager_options flags) w) (λ w.
      or_exit no_client_set (p.new_client_set (rest_config flags) w) (λ w. run_routed router_of w))
