-- ===== src/Controller/Reconcile/Schema/Stored.antt =====
-- What `Reconcile` leaves stored has the schema of a PodDiagnosis.
use poddoctor.Prelude.{
  subst, String, Bool, true, false, List, [], ◌∷◌, inl, inr, Bool-cases, All, All-append,
}
use poddoctor.Controller.Pods.{
  Pod, ContainerStatus, is_failing, failing_among, find_failing_containers,
}
use poddoctor.Controller.Reconcile.{Env, Reconciler, State, reconcile}
use poddoctor.Controller.Reconcile.Server.{IsServer}
use poddoctor.Controller.Reconcile.Schema.{HasInts}
use poddoctor.Controller.Reconcile.Each.{reconcile_pod_kept}
use poddoctor.Controller.Reconcile.Schema.Container.{
  KeepsStatus, HasSchema, PodHasInts, IsTyped, container-HasSchema,
}

-- The containers that fail are among those of the pod.
failing-HasInts :
    (is_init : Bool) (css : List ContainerStatus)
    → All HasInts css
    → All (λ fc. HasInts fc.status) (failing_among is_init css)
unfolding failing_among
failing-HasInts is_init [] h = tt
failing-HasInts is_init (cs ∷ rest) (a, h) = elim (Bool-cases (is_failing cs)) [
  | inl b ↦ rw b (a, failing-HasInts is_init rest h)
  | inr b ↦ rw b (failing-HasInts is_init rest h)
]

found-HasInts :
    (pod : Pod) → PodHasInts (inr pod) → All (λ fc. HasInts fc.status) (find_failing_containers pod)
unfolding find_failing_containers
found-HasInts pod (a, b) =
    All-append _ (failing_among true pod.init_statuses) (failing_among false pod.statuses)
      (failing-HasInts true pod.init_statuses a) (failing-HasInts false pod.statuses b)

module _ {W : Type 0} (env : Env W) (r : Reconciler) (laws : IsServer env) (keeps : KeepsStatus env)
    (typed : IsTyped env) where
  -- Over an API server that keeps objects by key, writes their statuses as JSON, and whose
  -- updates of an object leave its status, where the integers of container statuses and events
  -- fit an int32: if every stored PodDiagnosis has a status that was never written or a complete
  -- one, then so it is after a Reconcile, however it ends. A complete status has the phase
  -- Diagnosed, a root cause and a confidence of those that the schema lists, a summary, a
  -- recommendation, integers of 32 bits, at most 5 events and at most 12000 bytes of log: the
  -- 4000 that the operator takes, each of which may become three where the log is not valid
  -- UTF-8.
  pub reconcile-HasSchema :
      (namespace name : String) (s : State W)
      → HasSchema env s.world
      → HasSchema env (reconcile env r namespace name s).1.world
  unfolding reconcile
  reconcile-HasSchema namespace name s h =
      let a = env.get_pod namespace name s.world in
      reconcile_pod_kept env r (λ t. HasSchema env t.world) (λ _ fc. HasInts fc.status) a
        (λ pod e. container-HasSchema env r laws keeps typed pod)
        (λ pod e. found-HasInts pod (subst PodHasInts e (typed.pods namespace name s.world))) s h
