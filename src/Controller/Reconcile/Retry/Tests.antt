-- ===== src/Controller/Reconcile/Retry/Tests.antt =====
-- Over the server in memory, two containers of a pod and two rejected status updates.
use poddoctor.Prelude.{
  ℕ, zero, suc, ◌≤◌, ◌<◌, String, false, Option, none, some, [], ◌∷◌, inl, inr, ◌⊎◌, ◌≡◌, refl,
  arith, pos,
}
use poddoctor.Api.{PodDiagnosis}
use poddoctor.AlertGroup.{new}
use poddoctor.Text.Laws.{ne_of_test}
use poddoctor.Controller.Pods.{Pod, failing_among, is_failing, triggers, find_failing_containers}
use poddoctor.Controller.Reconcile.{ApiError, not_found, Reconciler, State, Outcome}
use poddoctor.Controller.Reconcile.Sample.{unpulled, web_pod, reconciler_to}
use poddoctor.Controller.Reconcile.Memory.{
  Memory, memory, memory-IsServer, read, update_lem, create_over, update_over, status_over,
}
use poddoctor.Controller.Reconcile.Pass.{AreApart, AreCurrent}
use poddoctor.Controller.Reconcile.Retry.{retry, IsFlaky}
use poddoctor.Controller.Reconcile.Retry.Ends.{retry_ends}

module _ (d : PodDiagnosis) (m : Memory) where
  create-rejects : (o : Option PodDiagnosis) → (create_over o d m).1.rejects ≤ m.rejects
  create-rejects none = omega arith
  create-rejects (some _) = omega arith

  update-rejects : (o : Option PodDiagnosis) → (update_over o d m).1.rejects ≤ m.rejects
  update-rejects none = omega arith
  update-rejects (some _) = omega arith

  create-spent :
      (o : Option PodDiagnosis) (e : ApiError)
      → read d.meta.namespace d.meta.name o ≡ inl not_found
      → (create_over o d m).0 ≡ inl e
      → (create_over o d m).1.rejects < m.rejects
  create-spent none e a q = cc
  create-spent (some _) e a q = cc

  update-spent :
      (o : Option PodDiagnosis) (e : ApiError) (old : PodDiagnosis)
      → read d.meta.namespace d.meta.name o ≡ inr old
      → (update_over o d m).0 ≡ inl e
      → (update_over o d m).1.rejects < m.rejects
  update-spent none e old a q = cc
  update-spent (some _) e old a q = cc

  status-rejects :
      (n : ℕ) (o : Option PodDiagnosis)
      → n ≤ m.rejects
      → (status_over n o d m).1.rejects ≤ m.rejects
  status-rejects (suc left) o h = omega arith
  status-rejects zero none h = omega arith
  status-rejects zero (some _) h = omega arith

  status-spent :
      (n : ℕ) (o : Option PodDiagnosis) (e : ApiError) (old : PodDiagnosis)
      → n ≤ m.rejects
      → read d.meta.namespace d.meta.name o ≡ inr old
      → (status_over n o d m).0 ≡ inl e
      → (status_over n o d m).1.rejects < m.rejects
  status-spent (suc left) o e old h a q = omega arith
  status-spent zero none e old h a q = cc
  status-spent zero (some _) e old h a q = cc

read_found :
    (ns name : String) (o : Option PodDiagnosis)
    → (read ns name o ≡ inl not_found) ⊎ ((d : PodDiagnosis) × (read ns name o ≡ inr d))
read_found ns name none = inl refl
read_found ns name (some d) = inr (_, refl)

memory-IsFlaky : (pod : Pod) → IsFlaky (memory pod) pod (λ m. m.rejects)
memory-IsFlaky pod = record {
  creates = record {
    bounded = λ d m. create-rejects d m _;
    spent = λ d e m a q. create-spent d m _ e a q;
  };
  updates = record {
    bounded = λ d m. update-rejects d m _;
    spent = λ d e m (old, a, v) q. update-spent d m _ e old a q;
  };
  updates_status = record {
    bounded = λ d m. status-rejects d m m.rejects _ (omega arith);
    spent = λ d e m (old, a, v) q. status-spent d m m.rejects _ e old (omega arith) a q;
  };
  posts = λ q m. omega arith;
  reads = λ k m. read_found k.namespace k.name _;
  updated = λ d d' m e. (update_lem pod _ d d' m e).1;
  owned = λ d. (_, refl, refl);
}

abbrev pod : Pod
pod = web_pod [] (unpulled "app" ∷ unpulled "proxy" ∷ [])

abbrev reconciler : Reconciler
reconciler = reconciler_to none

abbrev start : State Memory
start = record {
  world = record { objects = λ _ _. none; rejects = 2 };
  grouper = new (pos 600);
  effects = [];
}

apart : AreApart (find_failing_containers pod)
unfolding find_failing_containers failing_among is_failing triggers
apart = ((ne_of_test "app" "proxy" refl, tt), (tt, tt))

retry_ends_example :
    (o : Outcome) × (s' : State Memory) × (retry (memory pod) reconciler "shop" "web" 3 start
      ≡ some (o, s'))
    × (o.requeue ≡ false)
    × AreCurrent
        (memory pod)
        reconciler
        (memory-IsServer pod)
        pod
        s'.world
        (find_failing_containers pod)
retry_ends_example =
    retry_ends (memory pod) reconciler pod (λ m. m.rejects) (memory-IsServer pod)
      (memory-IsFlaky pod) refl "shop" "web" (λ w. refl) apart 3 start (omega arith)
