-- ===== src/Operator/Order.antt =====
-- The calls of the operator's start, each after the one before it has succeeded.
use poddoctor.Prelude.{
  ℤ, pos, leb_ℤ, ◌*◌, ◌^◌, ◌==◌, eq_iff, some, String, Bool, Bool-cases, true, false, ◌⊎◌, inl, inr,
  ◌≡◌, ◌≢◌, ◌↔◌, refl, sym, ap, ◌∙◌, arith, if◌then◌else◌,
}
use poddoctor.Text.Laws.{test_of_ne, ne_of_test}
use poddoctor.AlertGroup.{new}
use poddoctor.Controller.Evidence.{Settings}
use poddoctor.Controller.Reconcile.{Reconciler}
use poddoctor.Notify.Router.{Router}
use poddoctor.Controller.Setup.{Float, Setup, burst_of, set_up}
use poddoctor.Operator.{
  Flags, Platform, ManagerOptions, RestConfig, watched, Failure, Exit, finished, manager_options,
  rest_config, setup_of, reconciler_of, or_exit, router_of, add_dashboard, run, run_routed, main,
}

module _ {W : Type 0} (w' : W) (f : Failure) (next : W → Exit × W) where
  or_exit-finished :
      (x : Bool × W)
      → or_exit f x next ≡ (finished, w')
      → (v : W) × (x ≡ (true, v)) × (next v ≡ (finished, w'))
  unfolding or_exit
  or_exit-finished (true, v) e = (v, refl, e)
  or_exit-finished (false, v) e = ground arith

  or_exit-next :
      (x : Bool × W) (v : W)
      → x ≡ (true, v)
      → next v ≡ (finished, w')
      → or_exit f x next ≡ (finished, w')
  unfolding or_exit
  or_exit-next x v e h = rw e h

module _ {W : Type 0} (p : Platform W) (flags : Flags) where
  -- A setting that is positive, or else its default.
  abbrev pub positive_or : ℤ → ℤ → ℤ
  positive_or default n = if leb_ℤ n (pos 0) then default else n

  abbrev pub bounds : Settings
  bounds = record {
    log_tail_lines = positive_or (pos 50) flags.log_tail_lines;
    rollout_window = positive_or (pos (600 * 10 ^ 9)) flags.rollout_window;
  }

  -- The reconciler that the manager runs: its bounds and its cluster from the flags, a recorder,
  -- and the router.
  abbrev pub configured : Router → Reconciler
  configured router = record {
    settings = bounds;
    cluster_name = flags.cluster_name;
    has_recorder = true;
    notify_router = some router;
  }

  -- The positive rate of the evidence, or else twenty in a second.
  abbrev pub rate : Float
  rate =
      if leb_ℤ flags.evidence_qps.mantissa (pos 0)
      then record { mantissa = pos 20; shift = 0 }
      else flags.evidence_qps

  -- The rest of it: a new grouper, and a limiter of that rate.
  abbrev pub defaulted : Setup
  defaulted = record {
    settings = bounds;
    grouper = some (new (positive_or (pos (120 * 10 ^ 9)) flags.alert_group_window));
    alert_group_window = flags.alert_group_window;
    limiter = some (record { rate = rate; burst = burst_of rate });
    evidence_qps = flags.evidence_qps;
  }

  -- The dashboard is added, with the links from the flags, unless its address is "0".
  abbrev pub Shows : W → W → Type 0
  Shows w w' =
      ((flags.dashboard_addr ≡ "0") × (w' ≡ w))
      ⊎ ((flags.dashboard_addr ≢ "0")
          × (p.add_dashboard flags.dashboard_addr
                (record {
                  grafana_url = flags.grafana_url;
                  tempo_datasource_uid = flags.tempo_datasource_uid;
                })
                w
              ≡ (true, w')))

  -- The calls after the router is there, from one world to another.
  pub record IsRun (router : Router) (w w' : W) : Type 0 where
    pub registered : W
    pub shown : W
    pub healthy : W
    pub ready : W
    pub register : p.register (configured router) defaulted w ≡ (true, registered)
    pub dashboard : Shows registered shown
    pub healthz : p.add_healthz_check shown ≡ (true, healthy)
    pub readyz : p.add_readyz_check healthy ≡ (true, ready)
    pub start : p.start ready ≡ (true, w')

  -- The options of the manager and the client, from the flags and the constants of main.
  abbrev pub options : ManagerOptions
  options = record {
    metrics_addr = flags.metrics_addr;
    probe_addr = flags.probe_addr;
    leader_election = flags.enable_leader_election;
    leader_election_id = "poddoctor.poddoctor.dev";
    release_on_cancel = true;
    default_namespaces = watched flags.watch_namespace;
  }

  abbrev pub client : RestConfig
  client = record { qps = flags.kube_api_qps; burst = flags.kube_api_burst }

  pub record IsStarted (w w' : W) : Type 0 where
    pub managed : W
    pub connected : W
    pub router : Router
    pub manager : p.new_manager client options w ≡ (true, managed)
    pub client_set : p.new_client_set client managed ≡ (true, connected)
    pub routed : router_of p flags ≡ inr router
    pub rest : IsRun router connected w'

  Shows-add_dashboard : (w w' : W) → add_dashboard p flags w ≡ (true, w') → Shows w w'
  unfolding add_dashboard
  Shows-add_dashboard w w' e = elim (Bool-cases (flags.dashboard_addr == "0")) [
    | inl t ↦ inl ((eq_iff flags.dashboard_addr "0").0 t, ap (λ x. x.1) (sym (rw t at e)))
    | inr t ↦ inr (ne_of_test flags.dashboard_addr "0" t, rw t at e)
  ]

  add_dashboard-Shows : (w w' : W) → Shows w w' → add_dashboard p flags w ≡ (true, w')
  unfolding add_dashboard
  add_dashboard-Shows w w' (inl (t, e)) = rw (t, e)
  add_dashboard-Shows w w' (inr (t, e)) = rw (test_of_ne flags.dashboard_addr "0" t) e

  run-IsRun :
      (router : Router) (w w' : W) → run p flags router w ≡ (finished, w') → IsRun router w w'
  unfolding run reconciler_of setup_of set_up
  run-IsRun router w w' e =
      let (v, a, e) = or_exit-finished w' _ _ _ e in
      let (d, b, e) = or_exit-finished w' _ _ (add_dashboard p flags v) e in
      let (h, c, e) = or_exit-finished w' _ _ (p.add_healthz_check d) e in
      let (r, q, e) = or_exit-finished w' _ _ (p.add_readyz_check h) e in
      let (u, t, e) = or_exit-finished w' _ _ (p.start r) e in
      record {
        registered = v;
        shown = d;
        healthy = h;
        ready = r;
        register = a;
        dashboard = Shows-add_dashboard v d b;
        healthz = c;
        readyz = q;
        start = t ∙ ap (λ x. (true, x.1)) e;
      }

  IsRun-run :
      (router : Router) (w w' : W) → IsRun router w w' → run p flags router w ≡ (finished, w')
  unfolding run reconciler_of setup_of set_up
  IsRun-run router w w' s = or_exit-next w' _ _ _ s.registered s.register (
      or_exit-next w' _ _ _ s.shown (add_dashboard-Shows s.registered s.shown s.dashboard) (
        or_exit-next w' _ _ _ s.healthy s.healthz
          (or_exit-next w' _ _ _ s.ready s.readyz (or_exit-next w' _ _ _ w' s.start refl))))

  routed_iff :
      (routed : String ⊎ Router) (w w' : W)
      → run_routed p flags routed w ≡ (finished, w')
      → (router : Router) × (routed ≡ inr router) × IsRun router w w'
  routed_iff (inl x) w w' e = ground arith
  routed_iff (inr router) w w' e = (router, refl, run-IsRun router w w' e)

  -- main finishes exactly if all its calls succeed, each on the world that the one before it has
  -- left: the manager and the client set with the options of the flags, the router, the
  -- controller, of a reconciler with a recorder, the router and the settings of the flags, where
  -- one that is not positive has its default, the dashboard at its address unless that is "0",
  -- the two checks, and the start of the manager.
  pub main_iff : (w w' : W) → (main p flags w ≡ (finished, w')) ↔ IsStarted w w'
  unfolding main manager_options
  main_iff w w' = (
    λ e.
        let (v, a, e) = or_exit-finished w' _ _ _ e in
        let (c, b, e) = or_exit-finished w' _ _ (p.new_client_set (rest_config flags) v) e in
        let (router, t, s) = routed_iff (router_of p flags) c w' e in
        record {
          managed = v;
          connected = c;
          router = router;
          manager = a;
          client_set = b;
          routed = t;
          rest = s;
        },
    λ s. or_exit-next w' _ _ _ s.managed s.manager (
        or_exit-next w' _ _ _ s.connected s.client_set
          (rw s.routed (IsRun-run s.router s.connected w' s.rest))),
  )
