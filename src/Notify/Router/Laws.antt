-- ===== src/Notify/Router/Laws.antt =====
-- The webhook of a namespace is that of the first route that covers it.
use poddoctor.Prelude.{
  String, true, Option, none, some, List, [], ◌∷◌, ◌≡◌, ◌≢◌, ◌⊎◌, ◌↔◌, inl, inr, refl, arith, ◌==◌,
  ◌||◌, eq_iff, Any, any_iff, Bool-cases,
}
use poddoctor.Notify.Router.{
  Format, Route, Router, Target, Config, covers, route_from, fallback, route, new_router,
  build_notify_router,
}

abbrev pub Covers : String → Route → Type 0
Covers namespace r = Any (λ ns. (ns ≡ "*") ⊎ (ns ≡ namespace)) r.namespaces

pub covers_iff : (namespace : String) (r : Route) → (covers namespace r ≡ true) ↔ Covers namespace r
unfolding covers
covers_iff namespace r =
    any_iff (λ ns. ns == "*" || ns == namespace) (λ ns. (ns ≡ "*") ⊎ (ns ≡ namespace))
      (λ ns. ground (arith, eq_iff ns "*", eq_iff ns namespace)) r.namespaces

-- The first route of a list that covers a namespace, if any.
pub data First (namespace : String) : List Route → Option Route → Type 0 where
  nowhere : First namespace [] none
  here : {r : Route} {rest : List Route} → Covers namespace r → First namespace (r ∷ rest) (some r)
  later :
      {r : Route} {rest : List Route} {found : Option Route}
      → ¬ Covers namespace r
      → First namespace rest found
      → First namespace (r ∷ rest) found

-- What a found route answers, and the fallback.
abbrev pub Answers : Router → Option Route → Target → Type 0
Answers router none t = t ≡ fallback router
Answers router (some r) t =
    (t.url ≡ r.webhook_url)
    × (t.format ≡ r.format)
    × (t.token ≡ r.token)
    × ((t.ok ≡ true) ↔ (r.webhook_url ≢ ""))

route_from-First :
    (namespace : String) (router : Router) (routes : List Route) (found : Option Route)
    → First namespace routes found
    → Answers router found (route_from namespace (fallback router) routes)
unfolding route_from
route_from-First namespace router _ _ nowhere = refl
route_from-First namespace router _ _ (here {r} c) =
    rw ((covers_iff namespace r).1 c) (refl, refl, refl, ground (arith, eq_iff r.webhook_url ""))
route_from-First namespace router _ found (later {r} {rest} n f) =
    ground (arith, covers_iff namespace r, route_from-First namespace router rest found f)

-- Route answers with the URL, format and token of the first configured route that lists the
-- namespace or the wildcard, with ok exactly if its URL is not empty; with no such route the
-- fallback answers.
pub route-First :
    (namespace : String) (router : Router) (found : Option Route)
    → First namespace router.routes found
    → Answers router found (route (some router) namespace)
unfolding route
route-First namespace router found f = route_from-First namespace router router.routes found f

First-exists :
    (namespace : String) (routes : List Route)
    → (found : Option Route) × First namespace routes found
First-exists namespace [] = (none, nowhere)
First-exists namespace (r ∷ rest) = elim (Bool-cases (covers namespace r)) [
  | inl c ↦ (some r, here ((covers_iff namespace r).0 c))
  | inr n ↦
      let (found, f) = First-exists namespace rest in
      (found, later (λ c. ground (arith, covers_iff namespace r)) f)
]

-- A webhook that is to be called has a URL.
route_from-ok :
    (namespace : String) (otherwise : Target) (routes : List Route)
    → (otherwise.ok ≡ true → otherwise.url ≢ "")
    → (route_from namespace otherwise routes).ok ≡ true
    → (route_from namespace otherwise routes).url ≢ ""
unfolding route_from
route_from-ok namespace otherwise [] h e = h e
route_from-ok namespace otherwise (r ∷ rest) h e = elim (Bool-cases (covers namespace r)) [
  | inl c ↦ rw c (λ u. ground (arith, eq_iff r.webhook_url ""))
  | inr n ↦ rw n (route_from-ok namespace otherwise rest h (rw (n, route_from) at e))
]

pub route_ok :
    (router : Option Router) (namespace : String)
    → (route router namespace).ok ≡ true
    → (route router namespace).url ≢ ""
unfolding route fallback
route_ok none namespace e = cc
route_ok (some router) namespace e =
    route_from-ok namespace _ router.routes (λ h u. ground (arith, eq_iff router.fallback_url "")) e

-- With neither a configuration file nor a webhook URL there is a router, and it notifies nobody.
pub unconfigured_routes_nothing :
    (E : Type 0) (load : String → E ⊎ Config) (format : Format) (token namespace : String)
    → (router : Router) × (build_notify_router load "" "" format token ≡ inr router)
      × (route (some router) namespace ≡ route none namespace)
unfolding build_notify_router new_router route route_from fallback
unconfigured_routes_nothing E load format token namespace = (_, refl, refl)
