-- ===== src/Controller/Reconcile/Pass.antt =====
-- A pass of `Reconcile` over all failing containers of a pod.
use text.Mathlib.TextLemmas.{append_cancel_left}
use mathlib.Core.Bool.{true≢false}
use poddoctor.Prelude.{
  String, true, false, List, [], ◌∷◌, inl, inr, ◌≡◌, ◌≢◌, refl, ap, ◌∙◌, subst, Bool-cases, All,
  is_empty,
}
use poddoctor.Controller.Pods.{
  Pod, ContainerStatus, FailingContainer, find_failing_containers, diagnosis_name,
}
use poddoctor.Controller.Reconcile.{
  Env, Reconciler, State, Answer, Outcome, reconcile_each, and_then, outcome_of, reconcile_pod,
  reconcile,
}
use poddoctor.Controller.Reconcile.Server.{IsOther, view, IsServer}
use poddoctor.Controller.Reconcile.Keyed.{key_for, IsCurrent}
use poddoctor.Controller.Reconcile.Episode.{
  reconcile_container-IsCurrent, reconcile_container_rests,
}
use poddoctor.Controller.Reconcile.Each.{each_kept}
use poddoctor.Controller.Reconcile.Others.{reconcile_container-Keeps}

abbrev pub IsNamedApart : ContainerStatus → FailingContainer → Type 0
IsNamedApart cs fc = cs.name ≢ fc.status.name

-- The containers have different names.
abbrev pub AreApart : List FailingContainer → Type 0
AreApart [] = Unit
AreApart (fc ∷ rest) = All (IsNamedApart fc.status) rest × AreApart rest

All-empty : {A : Type 0} (P : A → Type 0) (xs : List A) → is_empty xs ≡ true → All P xs
All-empty P [] e = tt
All-empty P (x ∷ xs) e = cc

module _ {W : Type 0} (env : Env W) (r : Reconciler) (laws : IsServer env) (pod : Pod) where
  -- Containers of one pod that differ in name have diagnoses of different names.
  pub keys_apart :
      (cs : ContainerStatus) (fc : FailingContainer)
      → IsNamedApart cs fc
      → IsOther (key_for pod cs) (key_for pod fc.status)
  unfolding diagnosis_name
  keys_apart cs fc d = inr (λ e. d (append_cancel_left "-" _ _ (append_cancel_left pod.name _ _ e)))

  abbrev pub AreCurrent : W → List FailingContainer → Type 0
  AreCurrent w fcs = All (λ fc. IsCurrent env pod fc.status w) fcs

  IsCurrent-keeps :
      (cs : ContainerStatus) (w w' : W)
      → view env (key_for pod cs) w' ≡ view env (key_for pod cs) w
      → IsCurrent env pod cs w
      → IsCurrent env pod cs w'
  IsCurrent-keeps cs w w' e (d, v, c) = (d, e ∙ v, c)

  -- The rest of a pass, after what one container answered.
  abbrev pub Ends : (State W → Type 0) → Answer × State W → Type 0
  Ends P x = x.0 ≡ inr false → P x.1

  pub and_then-Ends :
      (P Q : State W → Type 0) (rest : State W → Answer × State W) (x : Answer × State W)
      → Ends P x
      → ((s : State W) → P s → Ends Q (rest s))
      → Ends Q (and_then rest x)
  unfolding and_then
  and_then-Ends P Q rest (inl e, s) h k = λ done. cc
  and_then-Ends P Q rest (inr true, s) h k = λ done. cc
  and_then-Ends P Q rest (inr false, s) h k = k s (h refl)

  -- A pass over other containers leaves a container's object alone.
  pub each-Keeps :
      (cs : ContainerStatus) (fcs : List FailingContainer)
      → All (IsNamedApart cs) fcs
      → (s : State W)
      → view env (key_for pod cs) (reconcile_each env r pod fcs s).1.world
        ≡ view env (key_for pod cs) s.world
  each-Keeps cs fcs a s =
      let k = key_for pod cs in
      each_kept env r (λ t. view env k t.world ≡ view env k s.world) pod (IsNamedApart cs)
        (λ fc d t h. reconcile_container-Keeps env r laws pod fc k (keys_apart cs fc d) t ∙ h) fcs a
        s refl

  -- A current container stays current while the others are reconciled.
  each_stays :
      (cs : ContainerStatus) (fcs : List FailingContainer)
      → All (IsNamedApart cs) fcs
      → (s : State W) → IsCurrent env pod cs s.world
      → IsCurrent env pod cs (reconcile_each env r pod fcs s).1.world
  each_stays cs fcs a s c = IsCurrent-keeps cs s.world _ (each-Keeps cs fcs a s) c

  each_settles :
      (fcs : List FailingContainer)
      → AreApart fcs
      → (s : State W) → Ends (λ t. AreCurrent t.world fcs) (reconcile_each env r pod fcs s)
  unfolding reconcile_each
  each_settles [] a s = λ done. tt
  each_settles (fc ∷ rest) (a, b) s =
      and_then-Ends (λ t. IsCurrent env pod fc.status t.world) (λ t. AreCurrent t.world (fc ∷ rest))
        _ _ (reconcile_container-IsCurrent env r laws pod fc s)
        (λ t c done. (each_stays fc.status rest a t c, each_settles rest b t done))

  each_rests :
      (fcs : List FailingContainer) (s : State W)
      → AreCurrent s.world fcs
      → reconcile_each env r pod fcs s ≡ (inr false, s)
  unfolding reconcile_each and_then
  each_rests [] s c = refl
  each_rests (fc ∷ rest) s (c, d) =
      rw (reconcile_container_rests env r laws pod fc s c) (each_rests rest s d)

  pub outcome_recheck :
      (a : Answer) (o : Outcome)
      → outcome_of a ≡ inr o
      → o.requeue ≡ false
      → (a ≡ inr false) × (outcome_of (inr false) ≡ inr o)
  unfolding outcome_of
  outcome_recheck (inl e) o h q = cc
  outcome_recheck (inr true) o h q =
      let e = ap (λ x. elim x [ inl _ ↦ false | inr p ↦ p.requeue ]) h in
      absurd (true≢false (e ∙ q))
  outcome_recheck (inr false) o h q = (refl, h)

  module _ (alive : pod.deleting ≡ false) (apart : AreApart (find_failing_containers pod)) where
    -- A pass that ends: the containers are current, and so a later pass answers the same.
    pass_ends :
        (s : State W) (o : Outcome)
        → (reconcile_pod env r (inr pod) s).0 ≡ inr o
        → o.requeue ≡ false
        → AreCurrent (reconcile_pod env r (inr pod) s).1.world (find_failing_containers pod)
          × ((t : State W)
              → AreCurrent t.world (find_failing_containers pod)
              → reconcile_pod env r (inr pod) t ≡ (inr o, t))
    unfolding reconcile_pod
    pass_ends s o = elim (Bool-cases (is_empty (find_failing_containers pod))) [
      | inl b ↦
          simp (alive, b)
            (λ h q. (All-empty _ (find_failing_containers pod) b, λ t c. ap (λ a. (a, t)) h))
      | inr b ↦
          simp (alive, b)
            (λ h q.
              let (done, same) = outcome_recheck _ o h q in
              (
                each_settles (find_failing_containers pod) apart s done,
                λ t c. rw (each_rests (find_failing_containers pod) t c) (ap (λ a. (a, t)) same),
              ))
    ]

    module _ (namespace name : String) (s s' : State W) (o : Outcome) where
      -- Over an API server that keeps objects by key, a Reconcile of a live pod with containers
      -- of different names that returns without an error or a requeue leaves every failing
      -- container with a stored PodDiagnosis whose last diagnosed restart count is the
      -- container's restart count.
      pub reconcile_settles :
          env.get_pod namespace name s.world ≡ inr pod
          → reconcile env r namespace name s ≡ (inr o, s')
          → o.requeue ≡ false
          → AreCurrent s'.world (find_failing_containers pod)
      unfolding reconcile
      reconcile_settles g e q =
          let e' = subst (λ x. reconcile_pod env r x s ≡ (inr o, s')) g e in
          subst (λ x. AreCurrent x.1.world (find_failing_containers pod)) e'
            (pass_ends s o (ap (λ x. x.0) e') q).0

      -- Over an API server that keeps objects by key, when a Reconcile of a live pod with
      -- containers of different names returned without an error or a requeue, and the pod is then
      -- read as before, the next Reconcile returns the same result and changes nothing: no
      -- object, metric, event or notification.
      pub reconcile_twice :
          env.get_pod namespace name s.world ≡ inr pod
          → env.get_pod namespace name s'.world ≡ inr pod
          → reconcile env r namespace name s ≡ (inr o, s')
          → o.requeue ≡ false
          → reconcile env r namespace name s' ≡ (inr o, s')
      unfolding reconcile
      reconcile_twice g g' e q =
          let e' = subst (λ x. reconcile_pod env r x s ≡ (inr o, s')) g e in
          rw g' ((pass_ends s o (ap (λ x. x.0) e') q).1 s' (reconcile_settles g e q))
