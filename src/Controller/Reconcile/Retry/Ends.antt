-- ===== src/Controller/Reconcile/Retry/Ends.antt =====
-- The requeues end.
use poddoctor.Prelude.{
  ℕ, zero, suc, ◌<◌, String, true, false, Option, some, inl, inr, ◌⊎◌, ◌≡◌, refl, sym, ap, ◌∙◌,
  subst, arith, Bool-cases, is_empty,
}
use poddoctor.Controller.Pods.{Pod, find_failing_containers}
use poddoctor.Controller.Reconcile.{
  Env, Reconciler, State, Answer, Failure, Outcome, reconcile_each, at_rest, outcome_of,
  reconcile_pod, reconcile,
}
use poddoctor.Controller.Reconcile.Server.{IsServer}
use poddoctor.Controller.Reconcile.Pass.{AreApart, AreCurrent, reconcile_settles}
use poddoctor.Controller.Reconcile.Retry.{then_retry, retry, IsFlaky}
use poddoctor.Controller.Reconcile.Retry.Spends.{Spends, each-Spends}

module _ {W : Type 0} (env : Env W) (r : Reconciler) (pod : Pod) (budget : W → ℕ)
    (laws : IsServer env) (flaky : IsFlaky env pod budget) where
  -- A round ends the loop, or spends from the budget.
  abbrev IsRound : ℕ → (Failure ⊎ Outcome) × State W → Type 0
  IsRound b x =
      ((o : Outcome) × (s' : State W) × (x ≡ (inr o, s')) × (o.requeue ≡ false))
      ⊎ ((s' : State W) × ((again : State W → Option (Outcome × State W))
            → then_retry again x ≡ again s')
          × (budget s'.world < b))

  answer-IsRound :
      (b : ℕ) (x : Answer × State W)
      → Spends env r pod budget laws flaky b x
      → IsRound b (outcome_of x.0, x.1)
  unfolding outcome_of
  answer-IsRound b (inl e, s) (le, lt) = inr (s, λ again. refl, lt (λ h. cc))
  answer-IsRound b (inr true, s) (le, lt) = inr (s, λ again. refl, lt (λ h. cc))
  answer-IsRound b (inr false, s) h = inl (_, s, refl, refl)

  module _ (alive : pod.deleting ≡ false) (namespace name : String)
      (stays : (w : W) → env.get_pod namespace name w ≡ inr pod) where
    reconcile_healthy :
        (s : State W)
        → is_empty (find_failing_containers pod) ≡ true
        → reconcile env r namespace name s ≡ (inr at_rest, s)
    unfolding reconcile reconcile_pod
    reconcile_healthy s b = ap (λ x. reconcile_pod env r x s) (stays s.world) ∙ simp (alive, b)

    reconcile_failing :
        (s : State W)
        → is_empty (find_failing_containers pod) ≡ false
        → reconcile env r namespace name s ≡ (
          outcome_of (reconcile_each env r pod (find_failing_containers pod) s).0,
          (reconcile_each env r pod (find_failing_containers pod) s).1,
        )
    unfolding reconcile reconcile_pod
    reconcile_failing s b = ap (λ x. reconcile_pod env r x s) (stays s.world) ∙ simp (alive, b)

    reconcile-IsRound : (s : State W) → IsRound (budget s.world) (reconcile env r namespace name s)
    reconcile-IsRound s = elim (Bool-cases (is_empty (find_failing_containers pod))) [
      | inl b ↦ inl (at_rest, s, reconcile_healthy s b, refl)
      | inr b ↦
          subst (λ x. IsRound (budget s.world) x) (sym (reconcile_failing s b))
            (answer-IsRound (budget s.world)
              (reconcile_each env r pod (find_failing_containers pod) s)
              (each-Spends env r pod budget laws flaky (find_failing_containers pod) s))
    ]

    -- Over an API server that keeps objects by key, where reads find an object or that there is
    -- none, a create of what is absent and an update of what is fresh fail only at the cost of a
    -- budget that nothing adds to, and no object has another owner: the rounds of Reconcile for a
    -- live pod with containers of different names that is read the same each time, with a new
    -- round after an error and after a requeue, end within one more round than the budget, with a
    -- result that asks for no requeue and an object with its restart count for every failing
    -- container.
    pub retry_ends :
        AreApart (find_failing_containers pod)
        → (rounds : ℕ) (s : State W) → budget s.world < rounds
        → (o : Outcome) × (s' : State W) × (retry env r namespace name rounds s ≡ some (o, s'))
          × (o.requeue ≡ false)
          × AreCurrent env r laws pod s'.world (find_failing_containers pod)
    unfolding retry
    retry_ends apart zero s lt = absurd (omega arith)
    retry_ends apart (suc rounds) s lt = elim (reconcile-IsRound s) [
      | inl (o, s', e, q) ↦ (
        o,
        s',
        simp (e, q),
        q,
        reconcile_settles env r laws pod alive apart namespace name s s' o (stays s.world) e q,
      )
      | inr (s', again, less) ↦
          let (o, t, e, q, current) = retry_ends apart rounds s' (omega arith) in
          (o, t, again _ ∙ e, q, current)
    ]
