-- ===== src/Controller/Reconcile/Retry/Spends.antt =====
-- What a reconcile that is not done has spent of the budget.
use Prim.Native.String.{◌++◌}
use poddoctor.Prelude.{
  ℕ, ◌≤◌, ◌<◌, String, true, false, Option, none, some, List, [], ◌∷◌, inl, inr, ◌⊎◌, ◌≡◌, ◌≢◌,
  refl, sym, ◌∙◌, arith, Bool-cases,
}
use poddoctor.Api.{PodDiagnosis, cause_name}
use poddoctor.Diagnosis.{Result}
use poddoctor.AlertGroup.{observe}
use poddoctor.Notify.Router.{route}
use poddoctor.Notify.Send.{send}
use poddoctor.Controller.Pods.{Pod, FailingContainer}
use poddoctor.Controller.Reconcile.{
  ApiError, not_found, already_exists, conflict, Env, Reconciler, State, Answer, is_current, finds,
  report, notify, conclude, examine, diagnosed, write, proceed, object_for, reconcile_container,
  and_then, reconcile_each,
}
use poddoctor.Controller.Reconcile.Server.{
  HasKey, key_of, view, IsServer, HasKey-trans, view-key_of,
}
use poddoctor.Controller.Reconcile.Keyed.{key_for}
use poddoctor.Controller.Reconcile.Retry.{IsAbsent, IsFresh, IsFlaky}

module _ {W : Type 0} (env : Env W) (r : Reconciler) (pod : Pod) (budget : W → ℕ)
    (laws : IsServer env) (flaky : IsFlaky env pod budget) where
  -- A step that is not done leaves less than `b` of the budget, and one that is done no more.
  abbrev pub Spends : ℕ → Answer × State W → Type 0
  Spends b x = (budget x.1.world ≤ b) × (x.0 ≢ inr false → budget x.1.world < b)

  send-spends :
      (url format token : String) (n : _) (w : W)
      → budget (send env.client url format token n w).1 ≤ budget w
  unfolding send
  send-spends url format token n w = elim (Bool-cases (env.client.valid_url url)) [
    | inl e ↦ rw e (flaky.posts _ w)
    | inr e ↦ rw e (omega arith)
  ]

  notify-spends :
      (result : Result) (d : PodDiagnosis) (s : State W)
      → budget (notify env r pod result d s).world ≤ budget s.world
  unfolding notify
  notify-spends result d s = elim (Bool-cases (route r.notify_router pod.namespace).ok) [
    | inr e ↦ rw e (omega arith)
    | inl e ↦
        elim (Bool-cases
          (observe s.grouper (pod.namespace ++ ("/" ++ cause_name result.root_cause))
            (env.now s.world)).0.ok) [
              | inr q ↦ rw (e, q) (omega arith)
              | inl q ↦ rw (e, q) (send-spends _ _ _ _ s.world)
            ]
  ]

  conclude-Spends :
      (b : ℕ) (result : Result) (a : ApiError ⊎ PodDiagnosis) (s : State W)
      → budget s.world ≤ b
      → ((e : ApiError) → a ≡ inl e → budget s.world < b)
      → Spends b (conclude env r pod result a s)
  unfolding conclude report
  conclude-Spends b result (inl e) s le lt = (le, λ h. lt e refl)
  conclude-Spends b result (inr d) s le lt =
      (omega (arith, notify-spends result d (report env r pod result s)), λ h. absurd (h refl))

  examine-Spends :
      (b : ℕ) (fc : FailingContainer) (expected : ApiError) (a : ApiError ⊎ PodDiagnosis)
      (s : State W)
      → budget s.world ≤ b
      → ((e : ApiError) → a ≡ inl e → budget s.world < b)
      → ((d : PodDiagnosis) → a ≡ inr d → IsFresh env d s.world)
      → Spends b (examine env r pod fc expected a s)
  unfolding examine diagnosed
  examine-Spends b fc expected (inl e) s le lt fresh = (le, λ h. lt e refl)
  examine-Spends b fc expected (inr d) s le lt fresh =
      conclude-Spends b _ _ (record s { world = _ })
        (omega (arith, flaky.updates_status.bounded _ s.world))
        (λ e q. omega (arith, flaky.updates_status.spent _ e s.world (fresh d refl) q))

  -- The object that a write stored is fresh for the next one.
  stored-IsFresh :
      (d d' : PodDiagnosis) (w : W)
      → HasKey (key_of d) d'
      → view env (key_of d) w ≡ inr d'
      → IsFresh env d' w
  stored-IsFresh d d' w k v = (d', view-key_of env (key_of d) d' w k ∙ v, refl)

  write-Spends :
      (fc : FailingContainer) (found : Option PodDiagnosis) (d : PodDiagnosis) (s : State W)
      → (found ≡ none → IsAbsent env d s.world)
      → ((old : PodDiagnosis) → found ≡ some old → IsFresh env d s.world)
      → Spends (budget s.world) (write env r pod fc found (some d) s)
  unfolding write
  write-Spends fc none d s absent fresh =
      examine-Spends (budget s.world) fc already_exists _ (record s { world = _ })
        (flaky.creates.bounded d s.world) (λ e q. flaky.creates.spent d e s.world (absent refl) q)
        (λ d' q.
          stored-IsFresh d d' _ (laws.creates.answered d d' s.world q)
            (laws.created d d' s.world q).0)
  write-Spends fc (some old) d s absent fresh =
      examine-Spends (budget s.world) fc conflict _ (record s { world = _ })
        (flaky.updates.bounded d s.world)
        (λ e q. flaky.updates.spent d e s.world (fresh old refl) q)
        (λ d' q.
          stored-IsFresh d d' _ (laws.updates.answered d d' s.world q)
            (flaky.updated d d' s.world q))

  absent-Spends :
      (fc : FailingContainer) (s : State W)
      → view env (key_for pod fc.status) s.world ≡ inl not_found
      → Spends (budget s.world) (proceed env r pod fc (inr none) s)
  unfolding proceed object_for is_current
  absent-Spends fc s f =
      let key = key_for pod fc.status in
      let (d, e, v) = flaky.owned (object_for pod fc.status none) in
      let named = (laws.owned pod (object_for pod fc.status none) d e).0 in
      rw e (write-Spends fc none d s (λ n. view-key_of env key d s.world named ∙ f) (λ old n. cc))

  found-Spends :
      (fc : FailingContainer) (old : PodDiagnosis) (s : State W)
      → view env (key_for pod fc.status) s.world ≡ inr old
      → Spends (budget s.world) (proceed env r pod fc (inr (some old)) s)
  unfolding proceed object_for
  found-Spends fc old s f = elim (Bool-cases (is_current (some old) fc.status)) [
    | inl b ↦ rw b (omega arith, λ h. absurd (h refl))
    | inr b ↦
        let key = key_for pod fc.status in
        let object = object_for pod fc.status (some old) in
        let (d, e, v) = flaky.owned object in
        let named =
          HasKey-trans key object d (laws.owned pod object d e).0 (laws.found key old s.world f) in
        rw (b, e)
          (write-Spends fc (some old) d s (λ n. cc)
            (λ o n. (old, view-key_of env key d s.world named ∙ f, sym v)))
  ]

  container-Spends :
      (fc : FailingContainer) (s : State W)
      → Spends (budget s.world) (reconcile_container env r pod fc s)
  unfolding reconcile_container finds
  container-Spends fc s = elim (flaky.reads (key_for pod fc.status) s.world) [
    | inl n ↦ rw n (absent-Spends fc s n)
    | inr (d, e) ↦ rw e (found-Spends fc d s e)
  ]

  and_then-Spends :
      (b : ℕ) (rest : State W → Answer × State W) (x : Answer × State W)
      → Spends b x
      → ((s : State W) → Spends (budget s.world) (rest s))
      → Spends b (and_then rest x)
  unfolding and_then
  and_then-Spends b rest (inl e, s) h k = h
  and_then-Spends b rest (inr true, s) h k = h
  and_then-Spends b rest (inr false, s) (le, lt) k =
      let (le', lt') = k s in (omega arith, λ n. omega (arith, lt' n))

  pub each-Spends :
      (fcs : List FailingContainer) (s : State W)
      → Spends (budget s.world) (reconcile_each env r pod fcs s)
  unfolding reconcile_each
  each-Spends [] s = (omega arith, λ h. absurd (h refl))
  each-Spends (fc ∷ rest) s =
      and_then-Spends (budget s.world) _ _ (container-Spends fc s) (λ t. each-Spends rest t)
