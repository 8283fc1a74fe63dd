-- ===== src/Operator/Routed.antt =====
-- An operator with a configuration file for its notifications.
use poddoctor.Prelude.{
  String, true, Option, some, List, ℕ, ◌≡◌, ◌≢◌, refl, inl, inr, Bool-cases, ◌==◌, if◌then◌else◌,
}
use poddoctor.Text.Laws.{test_of_ne}
use poddoctor.Notify.Router.{
  Config, Route, Router, Target, no_target, format_generic, load_config, build_notify_router,
  new_router, route, fallback,
}
use poddoctor.Notify.Router.Laws.{First, Answers, route-First}
use poddoctor.Operator.{Flags, Platform, router_of}

-- Where the diagnoses go for which a file has no route.
abbrev pub default_of : Config → Target
default_of cfg = if cfg.default_webhook_url == "" then no_target else record {
  url = cfg.default_webhook_url;
  format = if cfg.default_format == "" then format_generic else cfg.default_format;
  token = cfg.default_token;
  ok = true;
}

-- With a configuration file that can be read and parsed, the operator's router answers for a
-- namespace with the first route of the file that lists the namespace or the wildcard; with no
-- such route it answers with the file's default webhook, its format generic where the file names
-- none, and with no target where the default URL is empty. The webhook flags have no part in it.
pub router_of-First :
    {W : Type 0} (p : Platform W) (flags : Flags) (content : List ℕ) (cfg : Config)
    (namespace : String) (found : Option Route)
    → flags.notify_config_path ≢ ""
    → p.read_file flags.notify_config_path ≡ inr content
    → p.unmarshal content ≡ inr cfg
    → First namespace cfg.routes found
    → (router : Router) × (router_of p flags ≡ inr router)
      × (fallback router ≡ default_of cfg)
      × Answers router found (route (some router) namespace)
unfolding router_of build_notify_router load_config new_router fallback
router_of-First p flags content cfg namespace found n r u f =
    let format = if cfg.default_format == "" then format_generic else cfg.default_format in
    let router = new_router cfg.default_webhook_url format cfg.default_token cfg.routes in
    (
      router,
      rw (test_of_ne _ "" n, r, u) refl,
      elim (Bool-cases (cfg.default_webhook_url == "")) [ inl b ↦ rw b refl | inr b ↦ rw b refl ],
      route-First namespace router found f,
    )
