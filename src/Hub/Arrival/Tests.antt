-- ===== src/Hub/Arrival/Tests.antt =====
-- A first failure over the cluster in memory, with a hub that keeps its rows.
use mathlib.Core.Sum.{inr-injective}
use mathlib.Core.Option.{some-injective}
use poddoctor.Prelude.{
  String, ◌≤◌, Fits, All, length, ◌<◌, ◌^◌, ◌+◌, ◌≢◌, ℕ, suc, zero, true, false, none, some, Option,
  List, [], ◌∷◌, ◌≡◌, ◌⊎◌, refl, sym, ap, inr, pos, arith,
}
use poddoctor.Text.Laws.{ne_of_test}
use poddoctor.Api.{PodDiagnosis}
use poddoctor.AlertGroup.{new}
use poddoctor.Notify.Router.{new_router, route, route_from, fallback}
use poddoctor.Controller.Pods.{
  Pod, FailingContainer, diagnosis_name, find_failing_containers, failing_among, is_failing,
  triggers,
}
use poddoctor.Controller.Reconcile.{
  ApiError, Env, Reconciler, State, Failure, Outcome, diagnosis_requeue_interval, reconcile,
  reconcile_pod, reconcile_each, and_then, outcome_of, reconcile_container, proceed, finds,
  is_current, write, object_for, examine, conclude, diagnosed,
}
use poddoctor.Controller.Reconcile.Sample.{unpulled, web_pod, reconciler_to}
use poddoctor.Controller.Reconcile.Server.{IsServer}
use poddoctor.Controller.Reconcile.Conclude.{KeepsSpec}
use poddoctor.Controller.Reconcile.Memory.{
  Memory, memory, memory-IsServer, create_over, update_over, status_over,
}
use poddoctor.Hub.Sample.{hub_over}
use poddoctor.Hub.Store.{Diagnosis}
use poddoctor.Hub.Api.{Server}
use poddoctor.Hub.Delivery.{hub_client, post_keeps}
use poddoctor.Hub.Fleet.{IsForHub}
use poddoctor.Hub.Log.{KeepsRows}
use poddoctor.Hub.Arrival.Shown.{LeavesTable, BringsAll}
use poddoctor.Hub.Arrival.Pass.{reconcile-BringsAll}
use poddoctor.Controller.Reconcile.Pass.{AreApart}
use poddoctor.AlertGroup.Total.{waiting}
use poddoctor.Hub.Arrival.Balance.{IsBalanced}
use poddoctor.Hub.Arrival.Life.{reconcile_keys, room, reconcile_keys-IsBalanced}
use poddoctor.Hub.Arrival.Joined.{joined, joined-IsServer, joined-KeepsSpec}

module _ (d d' : PodDiagnosis) (m : Memory) where
  create-spec : (o : Option PodDiagnosis) → (create_over o d m).0 ≡ inr d' → d'.spec ≡ d.spec
  create-spec none e = sym (ap (λ x. x.spec) (inr-injective {A = ApiError} _ _ e))
  create-spec (some _) e = cc

  update-spec : (o : Option PodDiagnosis) → (update_over o d m).0 ≡ inr d' → d'.spec ≡ d.spec
  update-spec none e = cc
  update-spec (some _) e = sym (ap (λ x. x.spec) (inr-injective {A = ApiError} _ _ e))

  status-spec :
      (n : ℕ) (o : Option PodDiagnosis) → (status_over n o d m).0 ≡ inr d' → d'.spec ≡ d.spec
  status-spec (suc _) o e = cc
  status-spec zero none e = cc
  status-spec zero (some _) e = sym (ap (λ x. x.spec) (inr-injective {A = ApiError} _ _ e))

memory-KeepsSpec : (pod : Pod) → KeepsSpec (memory pod)
memory-KeepsSpec pod = record {
  owned = λ p d d' e. sym (ap (λ x. x.spec) (some-injective _ _ e));
  created = λ d d' m. create-spec d d' m _;
  updated = λ d d' m. update-spec d d' m _;
  status_updated = λ d d' m. status-spec d d' m _ _;
}

-- The cluster and the rows of the hub.
abbrev World : Type 0
World = Memory × List Diagnosis

abbrev hub : Server World
hub = hub_over (record {
  insert = λ d w. (true, (w.0, d ∷ w.1));
  list = λ f w. (some w.1, w);
  ping = λ w. (true, w);
})

abbrev pod : Pod
pod = web_pod [] (unpulled "app" ∷ [])

abbrev fc : FailingContainer
fc = record { status = unpulled "app"; is_init = false }

abbrev env : Env World
env = joined (memory pod) (hub_client hub)

abbrev reconciler : Reconciler
reconciler = reconciler_to (some (new_router "http://hub/ingest" "generic" "secret" []))

abbrev start : State World
start = record {
  world = (record { objects = λ _ _. none; rejects = 0 }, []);
  grouper = new (pos 600);
  effects = [];
}

laws : IsServer env
laws =
    joined-IsServer (memory pod) (hub_client hub) (memory-IsServer pod)
      (post_keeps hub (λ w. w.0) (λ d w. refl))

keeps : KeepsSpec env
keeps = joined-KeepsSpec (memory pod) (hub_client hub) (memory-KeepsSpec pod)

for_hub : IsForHub env reconciler hub pod
unfolding route route_from fallback new_router
for_hub = record {
  client = refl;
  targeted = refl;
  token = refl;
  format = ne_of_test "generic" "slack" refl;
}

abbrev pass : (Failure ⊎ Outcome) × State World
pass = reconcile env reconciler "shop" "web" start

abbrev recheck : Outcome
recheck = record { requeue = false; requeue_after = diagnosis_requeue_interval }

finishes : pass.0 ≡ inr recheck
unfolding reconcile reconcile_pod find_failing_containers failing_among is_failing triggers
    reconcile_each and_then outcome_of reconcile_container proceed finds is_current write object_for
    examine conclude diagnosed diagnosis_name
finishes = refl

passes : pass ≡ (inr recheck, pass.1)
passes = ap (λ a. (a, pass.1)) finishes

rows : KeepsRows hub.store (λ w. w.1)
rows = record {
  inserted = λ d w e. (d.id, d.received_at, refl);
  failed = λ d w e. cc;
  reads = record { lists = λ f w. refl; pings = λ w. refl };
}

leaves : LeavesTable env (λ w. w.1)
leaves = record { created = λ d w. refl; updated = λ d w. refl; status_updated = λ d w. refl }

apart : AreApart (find_failing_containers pod)
unfolding find_failing_containers failing_among is_failing triggers
apart = (tt, tt)

fit : All (λ fc. Fits 32 fc.status.restart_count) (find_failing_containers pod)
unfolding find_failing_containers failing_among is_failing triggers
fit = (record { from = omega arith; to = omega arith }, tt)

few : waiting start.grouper + length (find_failing_containers pod) < 2 ^ 63
unfolding new find_failing_containers failing_among is_failing triggers
few = omega arith

unnamed : (pod.namespace ≢ "") × (pod.name ≢ "")
unnamed = (ne_of_test "shop" "" refl, ne_of_test "web" "" refl)

reconcile-BringsAll_example :
    BringsAll env reconciler pod (λ w. w.1) start (find_failing_containers pod) pass.1
reconcile-BringsAll_example =
    reconcile-BringsAll env reconciler hub pod laws keeps (λ w. w.1) rows leaves for_hub unnamed.0
      unnamed.1 "shop" "web" start pass.1 recheck refl refl apart fit few passes refl

-- Two Reconciles of the pod.
abbrev keys : List (String × String)
keys = ("shop", "web") ∷ ("shop", "web") ∷ []

one : length (find_failing_containers pod) ≤ 1
unfolding find_failing_containers failing_among is_failing triggers
one = omega arith

spare : waiting start.grouper + room 1 keys < 2 ^ 63
unfolding new
spare = omega arith

reconcile_keys-IsBalanced_example :
    IsBalanced (λ w. w.1) start (reconcile_keys env reconciler keys start)
reconcile_keys-IsBalanced_example =
    reconcile_keys-IsBalanced env reconciler hub 1 laws keeps (λ w. w.1) rows (λ d w. refl) leaves
      keys start
      (λ _ _ _. record {
        for_hub = for_hub;
        namespaced = unnamed.0;
        named = unnamed.1;
        fits = fit;
        few = one;
      })
      spare
