-- ===== src/Controller/Reconcile/Each.antt =====
-- What each reconcileContainer of a pass keeps, the pass of `Reconcile` keeps.
use poddoctor.Prelude.{
  true, false, List, [], ◌∷◌, inl, inr, ◌⊎◌, ◌≡◌, refl, Bool-cases, All, is_empty,
}
use poddoctor.Controller.Pods.{Pod, FailingContainer, find_failing_containers}
use poddoctor.Controller.Reconcile.{
  ApiError, not_found, already_exists, conflict, other, Env, Reconciler, State, Answer,
  reconcile_container, reconcile_each, and_then, reconcile_pod,
}

-- What follows one container leaves the state as that did, or does the rest.
pub and_then_elim :
    {W : Type 0} (P : (State W → Type 0)) (rest : State W → Answer × State W) (x : Answer × State W)
    → P x.1
    → P (rest x.1).1
    → P (and_then rest x).1
unfolding and_then
and_then_elim P rest (inl e, t) h k = h
and_then_elim P rest (inr true, t) h k = h
and_then_elim P rest (inr false, t) h k = k

-- A Reconcile of a pod leaves the state as it is, or as the pass over its failing containers does.
pub reconcile_pod_elim :
    {W : Type 0} (env : Env W) (r : Reconciler) (P : (State W → Type 0)) (pod : Pod) (s : State W)
    → P s
    → P (reconcile_each env r pod (find_failing_containers pod) s).1
    → P (reconcile_pod env r (inr pod) s).1
unfolding reconcile_pod
reconcile_pod_elim env r P pod s h k = elim (Bool-cases pod.deleting) [
  | inl b ↦ simp b h
  | inr b ↦ elim (Bool-cases (is_empty (find_failing_containers pod))) [
    | inl q ↦ simp (b, q) h
    | inr q ↦ simp (b, q) k
  ]
]

module _ {W : Type 0} (env : Env W) (r : Reconciler) (P : (State W → Type 0)) where
  -- A property of states that the reconcile of a container keeps, of the containers with another property.
  abbrev pub IsStable : Pod → (FailingContainer → Type 0) → Type 0
  IsStable pod Q =
      (fc : FailingContainer)
      → Q fc
      → (s : State W) → P s
      → P (reconcile_container env r pod fc s).1

  module _ (pod : Pod) (Q : (FailingContainer → Type 0)) (stable : IsStable pod Q) where
    pub each_kept :
        (fcs : List FailingContainer)
        → All Q fcs
        → (s : State W) → P s
        → P (reconcile_each env r pod fcs s).1
    unfolding reconcile_each
    each_kept [] a s h = h
    each_kept (fc ∷ rest) (q, a) s h =
        let here = stable fc q s h in and_then_elim P _ _ here (each_kept rest a _ here)

    found_kept :
        All Q (find_failing_containers pod)
        → (s : State W) → P s
        → P (reconcile_pod env r (inr pod) s).1
    found_kept a s h =
        reconcile_pod_elim env r P pod s h (each_kept (find_failing_containers pod) a s h)

  -- Whatever the read of the pod answers.
  pub reconcile_pod_kept :
      (Q : Pod → FailingContainer → Type 0) (a : ApiError ⊎ Pod)
      → ((pod : Pod) → a ≡ inr pod → IsStable pod (Q pod))
      → ((pod : Pod) → a ≡ inr pod → All (Q pod) (find_failing_containers pod))
      → (s : State W) → P s
      → P (reconcile_pod env r a s).1
  unfolding reconcile_pod
  reconcile_pod_kept Q (inl not_found) f q s h = h
  reconcile_pod_kept Q (inl already_exists) f q s h = h
  reconcile_pod_kept Q (inl conflict) f q s h = h
  reconcile_pod_kept Q (inl other) f q s h = h
  reconcile_pod_kept Q (inr pod) f q s h = found_kept pod (Q pod) (f pod refl) (q pod refl) s h
