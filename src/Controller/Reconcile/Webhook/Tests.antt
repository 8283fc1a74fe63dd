-- ===== src/Controller/Reconcile/Webhook/Tests.antt =====
-- The server in memory, with a webhook that answers and one that does not.
use poddoctor.Prelude.{true, false, none, some, [], ◌∷◌, refl, pos}
use poddoctor.AlertGroup.{new}
use poddoctor.Notify.Router.{new_router}
use poddoctor.Notify.Send.{HttpClient}
use poddoctor.Controller.Pods.{Pod, FailingContainer}
use poddoctor.Controller.Reconcile.{Reconciler, State, reconcile_container}
use poddoctor.Controller.Reconcile.Sample.{unpulled, web_pod, reconciler_to}
use poddoctor.Controller.Reconcile.Memory.{Memory, memory, memory-IsServer}
use poddoctor.Controller.Reconcile.Webhook.{over, Agree, reconcile_container-Agree}

abbrev pod : Pod
pod = web_pod [] (unpulled "app" ∷ [])

abbrev fc : FailingContainer
fc = record { status = unpulled "app"; is_init = false }

abbrev silent : HttpClient Memory
silent = record { valid_url = λ _. true; post = λ _ m. (none, m) }

abbrev reconciler : Reconciler
reconciler = reconciler_to (some (new_router "https://hooks" "generic" "" []))

abbrev start : State Memory
start = record {
  world = record { objects = λ _ _. none; rejects = 0 };
  grouper = new (pos 600);
  effects = [];
}

reconcile_container-Agree_example :
    Agree
      (memory pod)
      silent
      reconciler
      (memory-IsServer pod)
      (λ k q m. refl)
      pod
      (reconcile_container (memory pod) reconciler pod fc start)
      (reconcile_container (over (memory pod) silent) reconciler pod fc start)
reconcile_container-Agree_example =
    reconcile_container-Agree (memory pod) silent reconciler (memory-IsServer pod) (λ k q m. refl)
      pod fc start
