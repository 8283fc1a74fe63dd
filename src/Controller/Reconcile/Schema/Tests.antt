-- ===== src/Controller/Reconcile/Schema/Tests.antt =====
-- A pod that cannot pull its images, over the server in memory.
use poddoctor.Prelude.{Option, none, some, [], ◌∷◌, ◌≡◌, refl, sym, ap, ◌∙◌, pos, Fits, arith}
use poddoctor.Api.{PodDiagnosis}
use poddoctor.AlertGroup.{new}
use poddoctor.Notify.Router.{new_router}
use poddoctor.Controller.Pods.{Pod}
use poddoctor.Controller.Reconcile.{Reconciler, State, reconcile}
use poddoctor.Controller.Reconcile.Sample.{unpulled, web_pod, reconciler_to}
use poddoctor.Controller.Reconcile.Server.{key_of, view}
use poddoctor.Controller.Reconcile.Memory.{
  Memory, read, update_over, memory, put_here, memory-IsServer,
}
use poddoctor.Controller.Reconcile.Schema.Container.{status_in, KeepsStatus, HasSchema, IsTyped}
use poddoctor.Controller.Reconcile.Schema.Stored.{reconcile-HasSchema}

abbrev pod : Pod
pod = web_pod (unpulled "setup" ∷ []) (unpulled "app" ∷ [])

update_kept :
    (o : Option PodDiagnosis) (d : PodDiagnosis) (m : Memory)
    → m.objects d.meta.namespace d.meta.name ≡ o
    → status_in (view (memory pod) (key_of d) (update_over o d m).1)
      ≡ status_in (view (memory pod) (key_of d) m)
update_kept none d m e = refl
update_kept (some old) d m e =
    ap status_in (put_here pod (record d { status = old.status }) m)
    ∙ sym (ap (λ o. status_in (read d.meta.namespace d.meta.name o)) e)

memory-KeepsStatus : KeepsStatus (memory pod)
memory-KeepsStatus = record { kept = λ d m. update_kept _ d m refl }

zero-Fits : Fits 32 (pos 0)
zero-Fits = record { from = omega arith; to = omega arith }

memory-IsTyped : IsTyped (memory pod)
memory-IsTyped = record {
  pods = λ namespace name m. (
    (record { restarts = zero-Fits; exit = tt }, tt),
    (record { restarts = zero-Fits; exit = tt }, tt),
  );
  events = λ p m. tt;
}

abbrev reconciler : Reconciler
reconciler = reconciler_to (some (new_router "https://hooks" "generic" "" []))

abbrev start : State Memory
start = record {
  world = record { objects = λ _ _. none; rejects = 0 };
  grouper = new (pos 600);
  effects = [];
}

reconcile-HasSchema_example :
    HasSchema (memory pod) (reconcile (memory pod) reconciler "shop" "web" start).1.world
reconcile-HasSchema_example =
    reconcile-HasSchema (memory pod) reconciler (memory-IsServer pod) memory-KeepsStatus
      memory-IsTyped "shop" "web" start (λ k. tt)
