-- ===== src/Controller/Reconcile/Isolated/Tests.antt =====
-- A pod of one namespace, and another namespace, over the server in memory.
use poddoctor.Prelude.{String, none, some, [], ◌∷◌, ◌≢◌, refl, pos}
use poddoctor.Text.Laws.{ne_of_test}
use poddoctor.AlertGroup.{new}
use poddoctor.Notify.Router.{new_router}
use poddoctor.Controller.Pods.{Pod}
use poddoctor.Controller.Reconcile.{Reconciler, State, reconcile}
use poddoctor.Controller.Reconcile.Sample.{unpulled, web_pod, reconciler_to}
use poddoctor.Controller.Reconcile.Memory.{Memory, memory, memory-IsServer}
use poddoctor.Controller.Reconcile.Isolated.{IsSame, reconcile-IsSame}

abbrev pod : Pod
pod = web_pod (unpulled "setup" ∷ []) (unpulled "app" ∷ [])

abbrev reconciler : Reconciler
reconciler = reconciler_to (some (new_router "https://hooks" "generic" "" []))

abbrev start : State Memory
start = record {
  world = record { objects = λ _ _. none; rejects = 0 };
  grouper = new (pos 600);
  effects = [];
}

apart : ◌≢◌ {A = String} "shop" "payments"
apart = ne_of_test "shop" "payments" refl

reconcile-IsSame_example :
    IsSame
      (memory pod)
      reconciler
      (memory-IsServer pod)
      "payments"
      start
      (reconcile (memory pod) reconciler "shop" "web" start).1
reconcile-IsSame_example =
    reconcile-IsSame (memory pod) reconciler (memory-IsServer pod) "shop" "web" "payments" start
      refl apart refl refl
