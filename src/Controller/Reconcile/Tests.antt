-- ===== src/Controller/Reconcile/Tests.antt =====
-- A crash-looping pod over the server in memory.
use poddoctor.Prelude.{
  ℕ, ◌+◌, ◌-◌, ◌≤◌, true, false, none, some, [], ◌∷◌, inr, ◌≡◌, ◌≢◌, ◌⊎◌, refl, sym, ◌∙◌, pos,
}
use poddoctor.Api.{PodDiagnosis, zero_status}
use poddoctor.AlertGroup.{new, lookup, observe}
use poddoctor.Notify.Router.{new_router, route, route_from, fallback}
use poddoctor.Text.Laws.{ne_of_test}
use poddoctor.Notify.Send.{send}
use poddoctor.Controller.Pods.{
  Pod, FailingContainer, diagnosis_name, triggers, is_failing, failing_among,
  find_failing_containers,
}
use poddoctor.Controller.Reconcile.{
  Reconciler, State, Answer, Outcome, diagnosis_requeue_interval, reconcile_container, proceed,
  finds, is_current, write, object_for, examine, conclude, refused, same_error, diagnosed, spec_of,
  report, notify, Failure, reconcile_each, and_then, outcome_of, reconcile_pod, reconcile,
}
use poddoctor.Controller.Reconcile.Sample.{unpulled, web_pod, reconciler_to}
use poddoctor.Controller.Reconcile.Memory.{Memory, memory, memory-IsServer}
use poddoctor.Controller.Reconcile.Server.{Key, view}
use poddoctor.Controller.Reconcile.Once.{counts, begun, attempt, History_lem}
use poddoctor.Controller.Reconcile.Keyed.{key_for}
use poddoctor.Controller.Reconcile.Announce.{IsAnnounced, reconcile_container-IsAnnounced}
use poddoctor.Controller.Reconcile.Quiet.{IsQuiet, reconcile_container-IsQuiet}
use poddoctor.Controller.Reconcile.Pass.{AreApart, AreCurrent, reconcile_settles, reconcile_twice}
use poddoctor.Controller.Reconcile.Lost.{reconcile_container_loses}

abbrev pod : Pod
pod = web_pod (unpulled "setup" ∷ []) (unpulled "app" ∷ [])

abbrev fc : FailingContainer
fc = record { status = unpulled "app"; is_init = false }

abbrev reconciler : Reconciler
reconciler = reconciler_to (some (new_router "https://hooks" "generic" "" []))

abbrev start : ℕ → State Memory
start rejects = record {
  world = record { objects = λ _ _. none; rejects = rejects };
  grouper = new (pos 600);
  effects = [];
}

-- What these runs unfold.
abbrev once : ℕ → Answer × State Memory
once rejects = reconcile_container (memory pod) reconciler pod fc (start rejects)

finishes : (once 0).0 ≡ inr false
unfolding reconcile_container proceed finds is_current write object_for examine conclude diagnosed
    diagnosis_name
finishes = refl

stops : (once 1).0 ≡ inr true
unfolding reconcile_container proceed finds is_current write object_for examine conclude refused
    same_error diagnosed diagnosis_name
stops = refl

stopped : (once 1).0 ≢ inr false
stopped e = cc (sym stops ∙ e)

reconcile_container-IsQuiet_example : IsQuiet (start 1) (once 1).1
reconcile_container-IsQuiet_example =
    reconcile_container-IsQuiet (memory pod) reconciler pod fc (start 1) stopped

-- The object that was created before the status update failed.
abbrev created : PodDiagnosis
created = record {
  meta = record {
    name = "web-app";
    namespace = "shop";
    controller = some "u1";
    resource_version = 0;
  };
  spec = record {
    pod_name = "web";
    pod_namespace = "shop";
    container_name = "app";
    pod_uid = "u1";
  };
  status = zero_status;
}

stored : view (memory pod) (key_for pod (unpulled "app")) (once 1).1.world ≡ inr created
unfolding reconcile_container proceed finds is_current write object_for examine conclude diagnosed
    diagnosis_name spec_of
stored = refl

reconcile_container_loses_example :
    reconcile_container (memory pod) reconciler pod fc (once 1).1 ≡ (inr false, (once 1).1)
reconcile_container_loses_example =
    reconcile_container_loses (memory pod) reconciler (memory-IsServer pod) pod fc (start 1) refl
      refl stopped (once 1).1 created refl stored

abbrev pass : (Failure ⊎ Outcome) × State Memory
pass = reconcile (memory pod) reconciler "shop" "web" (start 0)

abbrev recheck : Outcome
recheck = record { requeue = false; requeue_after = diagnosis_requeue_interval }

passes : pass ≡ (inr recheck, pass.1)
unfolding reconcile reconcile_pod find_failing_containers failing_among is_failing triggers
    reconcile_each and_then outcome_of reconcile_container proceed finds is_current write object_for
    examine conclude diagnosed diagnosis_name notify route route_from new_router fallback observe
    lookup report new send
passes = refl

apart : AreApart (find_failing_containers pod)
unfolding find_failing_containers failing_among is_failing triggers
apart = ((ne_of_test "setup" "app" refl, tt), (tt, tt))

reconcile_settles_example :
    AreCurrent
      (memory pod)
      reconciler
      (memory-IsServer pod)
      pod
      pass.1.world
      (find_failing_containers pod)
reconcile_settles_example =
    reconcile_settles (memory pod) reconciler (memory-IsServer pod) pod refl apart "shop" "web"
      (start 0) pass.1 recheck refl passes refl

reconcile_twice_example :
    reconcile (memory pod) reconciler "shop" "web" pass.1 ≡ (inr recheck, pass.1)
reconcile_twice_example =
    reconcile_twice (memory pod) reconciler (memory-IsServer pod) pod refl apart "shop" "web"
      (start 0) pass.1 recheck refl refl passes refl

reconcile_container-IsAnnounced_example :
    ((once 0).1 ≡ start 0)
    ⊎ IsAnnounced (memory pod) reconciler (memory-IsServer pod) pod fc [] (once 0).1
reconcile_container-IsAnnounced_example =
    reconcile_container-IsAnnounced (memory pod) reconciler (memory-IsServer pod) pod fc (start 0)
      finishes

-- Two attempts, the second with another waiting reason.
abbrev backed_off : FailingContainer
backed_off = record {
  status = record (unpulled "app") {
    waiting = some (record { reason = "ImagePullBackOff"; message = "" });
  };
  is_init = false;
}

abbrev key : Key
key = key_for pod (unpulled "app")

abbrev second : Answer × State Memory
second = reconcile_container (memory pod) reconciler pod backed_off (once 0).1

abbrev increments : ℕ
increments =
    0
    + (counts (once 0).1.effects - counts (start 0).effects)
    + (counts second.1.effects - counts (once 0).1.effects)

History_lem_example :
    (increments ≤ 1)
    × (1 ≤ increments
        → (d : PodDiagnosis) × (view (memory pod) key second.1.world ≡ inr d)
          × (d.status.last_diagnosed_restart_count ≡ pos 0))
History_lem_example = History_lem (memory pod) reconciler key (pos 0) (memory-IsServer pod) (
    attempt (attempt begun pod fc (record { names = refl; counted_restarts = refl })) pod backed_off
      (record { names = refl; counted_restarts = refl }))

one_increment : increments ≡ 1
unfolding reconcile_container proceed finds is_current write object_for examine conclude diagnosed
    diagnosis_name report notify route route_from new_router fallback observe lookup new send
one_increment = refl
