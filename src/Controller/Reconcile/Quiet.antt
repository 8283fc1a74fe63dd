-- ===== src/Controller/Reconcile/Quiet.antt =====
-- What a reconcile that does not finish leaves alone: metrics, events and notifications.
use poddoctor.Prelude.{false, Option, none, some, inl, inr, ◌⊎◌, ◌≡◌, ◌≢◌, refl, Bool-cases}
use poddoctor.Api.{PodDiagnosis}
use poddoctor.Diagnosis.{Result}
use poddoctor.Controller.Pods.{Pod, FailingContainer}
use poddoctor.Controller.Reconcile.{
  ApiError, already_exists, conflict, Env, Reconciler, State, Answer, is_current, conclude, examine,
  write, proceed, reconcile_container,
}

-- The grouper and the effects of both states agree.
abbrev pub IsQuiet : {W : Type 0} → State W → State W → Type 0
IsQuiet s t = (t.grouper ≡ s.grouper) × (t.effects ≡ s.effects)

module _ {W : Type 0} (env : Env W) (r : Reconciler) (pod : Pod) (fc : FailingContainer) where
  abbrev QuietUnless : State W → Answer × State W → Type 0
  QuietUnless s x = x.0 ≢ inr false → IsQuiet s x.1

  conclude-IsQuiet :
      (result : Result) (a : ApiError ⊎ PodDiagnosis) (s : State W)
      → QuietUnless s (conclude env r pod result a s)
  unfolding conclude
  conclude-IsQuiet result (inl e) s h = (refl, refl)
  conclude-IsQuiet result (inr d) s h = absurd (h refl)

  examine-IsQuiet :
      (expected : ApiError) (a : ApiError ⊎ PodDiagnosis) (s : State W)
      → QuietUnless s (examine env r pod fc expected a s)
  unfolding examine
  examine-IsQuiet expected (inl e) s h = (refl, refl)
  examine-IsQuiet expected (inr d) s h = conclude-IsQuiet _ _ (record s { world = _ }) h

  write-IsQuiet :
      (found owned : Option PodDiagnosis) (s : State W)
      → QuietUnless s (write env r pod fc found owned s)
  unfolding write
  write-IsQuiet found none s h = (refl, refl)
  write-IsQuiet none (some d) s h = examine-IsQuiet already_exists _ (record s { world = _ }) h
  write-IsQuiet (some _) (some d) s h = examine-IsQuiet conflict _ (record s { world = _ }) h

  proceed-IsQuiet :
      (a : ApiError ⊎ Option PodDiagnosis) (s : State W) → QuietUnless s (proceed env r pod fc a s)
  unfolding proceed
  proceed-IsQuiet (inl e) s = λ h. (refl, refl)
  proceed-IsQuiet (inr found) s = elim (Bool-cases (is_current found fc.status)) [
    | inl b ↦ rw b (λ h. (refl, refl))
    | inr b ↦ rw b (write-IsQuiet found _ s)
  ]

  -- A reconcileContainer that ends with an error or a requeue counts nothing, records no event
  -- and leaves the grouper as it was.
  pub reconcile_container-IsQuiet :
      (s : State W)
      → (reconcile_container env r pod fc s).0 ≢ inr false
      → IsQuiet s (reconcile_container env r pod fc s).1
  unfolding reconcile_container
  reconcile_container-IsQuiet s = proceed-IsQuiet _ s
