-- ===== src/Notify/Router.antt =====
-- internal/notify/router.go, and `buildNotifyRouter` of cmd/main.go.
pub mod Laws
mod Tests
use poddoctor.Prelude.{
  ℕ, String, Bool, true, false, not, Option, none, some, List, [], ◌∷◌, ◌==◌, ◌||◌, any,
  if◌then◌else◌, ◌⊎◌, inl, inr,
}

-- `Format` is a string type: any text may stand in a configuration.
abbrev pub Format : Type 0
Format = String

abbrev pub format_generic : Format
format_generic = "generic"

abbrev pub format_slack : Format
format_slack = "slack"

pub record Route : Type 0 where
  pub namespaces : List String
  pub webhook_url : String
  pub format : Format
  pub token : String

pub record Config : Type 0 where
  pub default_webhook_url : String
  pub default_format : Format
  pub default_token : String
  pub routes : List Route

pub record Router : Type 0 where
  pub routes : List Route
  pub fallback_url : String
  pub fallback_format : Format
  pub fallback_token : String

unfoldable pub new_router : String → Format → String → List Route → Router
new_router url format token routes = record {
  routes = routes;
  fallback_url = url;
  fallback_format = format;
  fallback_token = token;
}

-- The four results of `Route`.
pub record Target : Type 0 where
  pub url : String
  pub format : Format
  pub token : String
  pub ok : Bool

abbrev pub no_target : Target
no_target = record { url = ""; format = ""; token = ""; ok = false }

-- The inner loop: some namespace of the route is the wildcard or the given one.
unfoldable pub covers : String → Route → Bool
covers namespace r = any (λ ns. ns == "*" || ns == namespace) r.namespaces

-- The outer loop, with what follows it when no route covers the namespace.
unfoldable pub route_from : String → Target → List Route → Target
route_from namespace otherwise [] = otherwise
route_from namespace otherwise (r ∷ rest) =
    if covers namespace r
    then record {
      url = r.webhook_url;
      format = r.format;
      token = r.token;
      ok = not (r.webhook_url == "");
    }
    else route_from namespace otherwise rest

unfoldable pub fallback : Router → Target
fallback router =
    if not (router.fallback_url == "")
    then record {
      url = router.fallback_url;
      format = router.fallback_format;
      token = router.fallback_token;
      ok = true;
    }
    else no_target

-- `Route`; the nil router is none.
unfoldable pub route : Option Router → String → Target
route none namespace = no_target
route (some router) namespace = route_from namespace (fallback router) router.routes

-- `LoadConfig`, over os.ReadFile and yaml.Unmarshal into the zero Config.
unfoldable pub load_config {ℓ} :
    {E : Type ℓ}
    → (read_file : String → E ⊎ List ℕ) (unmarshal : List ℕ → E ⊎ Config) (path : String)
    → E ⊎ Config
load_config read_file unmarshal path = elim (read_file path) [
  | inl e ↦ inl e
  | inr content ↦ unmarshal content
]

-- `buildNotifyRouter`. `load` is LoadConfig.
unfoldable pub build_notify_router {ℓ} :
    {E : Type ℓ}
    → (String → E ⊎ Config)
    → (config_path webhook_url : String) → Format
    → (webhook_token : String) → E ⊎ Router
build_notify_router load config_path webhook_url webhook_format webhook_token =
    if not (config_path == "")
    then elim (load config_path) [
      | inl e ↦ inl e
      | inr cfg ↦ inr (
          new_router cfg.default_webhook_url
            (if cfg.default_format == "" then format_generic else cfg.default_format)
            cfg.default_token cfg.routes)
    ]
    else inr (
        new_router webhook_url (if webhook_format == "" then format_generic else webhook_format)
          webhook_token [])
