-- ===== src/Operator/Quiet.antt =====
-- An operator without a webhook notifies nobody.
use poddoctor.Prelude.{[], ◌≡◌, refl, inr, ◌==◌, if◌then◌else◌}
use poddoctor.Api.{PodDiagnosis}
use poddoctor.Diagnosis.{Result}
use poddoctor.Notify.Router.{
  Router, format_generic, build_notify_router, new_router, route, route_from, fallback,
}
use poddoctor.Controller.Pods.{Pod}
use poddoctor.Controller.Reconcile.{Env, State, notify}
use poddoctor.Operator.{Flags, Platform, webhook_token, router_of, reconciler_of}

-- With neither a configuration file nor a webhook URL the operator has a router, with which the
-- notification of its reconciler changes nothing: nothing is sent, and no occurrence is grouped.
pub notify-reconciler_of :
    {V W : Type 0} (p : Platform V) (flags : Flags)
    → flags.notify_config_path ≡ ""
    → flags.webhook_url ≡ ""
    → (router : Router) × (router_of p flags ≡ inr router)
      × ((env : Env W) (pod : Pod) (result : Result) (d : PodDiagnosis) (s : State W)
          → notify env (reconciler_of flags router) pod result d s ≡ s)
unfolding router_of build_notify_router reconciler_of notify route route_from fallback new_router
notify-reconciler_of p flags c u =
    let format = if flags.webhook_format == "" then format_generic else flags.webhook_format in
    let router = new_router flags.webhook_url format (webhook_token p flags) [] in
    (router, rw c refl, λ env pod result d s. rw u refl)
