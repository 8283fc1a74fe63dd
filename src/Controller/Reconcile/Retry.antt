-- ===== src/Controller/Reconcile/Retry.antt =====
-- The requeues of a pod's key: controller-runtime calls `Reconcile` again after an error and after a
-- result that asks for it.
pub mod Spends
pub mod Ends
mod Tests
use poddoctor.Prelude.{
  ℕ, zero, suc, ◌≤◌, ◌<◌, String, true, false, Option, none, some, inl, inr, ◌⊎◌, ◌≡◌,
}
use poddoctor.Api.{PodDiagnosis}
use poddoctor.Notify.Send.{Request}
use poddoctor.Controller.Pods.{Pod}
use poddoctor.Controller.Reconcile.{
  ApiError, not_found, Env, Reconciler, State, Failure, Outcome, reconcile,
}
use poddoctor.Controller.Reconcile.Server.{Key, key_of, view}

-- What a result asks for: it is the last, or there is another round.
abbrev pub then_retry :
    {W : Type 0}
    → (State W → Option (Outcome × State W))
    → (Failure ⊎ Outcome) × State W
    → Option (Outcome × State W)
then_retry again (inl e, s) = again s
then_retry again (inr o, s) = elim o.requeue [ true ↦ again s | false ↦ some (o, s) ]

-- The calls of `Reconcile` on a key until one returns without an error and asks for no requeue; none where
-- the rounds do not suffice.
unfoldable pub retry :
    {W : Type 0}
    → Env W
    → Reconciler
    → (namespace name : String) → ℕ
    → State W
    → Option (Outcome × State W)
retry env r namespace name zero s = none
retry env r namespace name (suc rounds) s =
    then_retry (λ s'. retry env r namespace name rounds s') (reconcile env r namespace name s)

-- A write that may succeed, by what it is of, fails only at the cost of a budget that nothing adds to.
pub record IsCharged {W : Type 0} (budget : W → ℕ) (Valid : PodDiagnosis → W → Type 0)
    (call : PodDiagnosis → W → (ApiError ⊎ PodDiagnosis) × W) : Type 0 where
  pub bounded : (d : PodDiagnosis) (w : W) → budget (call d w).1 ≤ budget w
  pub spent :
      (d : PodDiagnosis) (e : ApiError) (w : W)
      → Valid d w
      → (call d w).0 ≡ inl e
      → budget (call d w).1 < budget w

abbrev pub IsAbsent : {W : Type 0} → Env W → PodDiagnosis → W → Type 0
IsAbsent env d w = view env (key_of d) w ≡ inl not_found

-- The object is stored in the version that the write is of.
abbrev pub IsFresh : {W : Type 0} → Env W → PodDiagnosis → W → Type 0
IsFresh env d w =
    (old : PodDiagnosis) × (view env (key_of d) w ≡ inr old)
    × (old.meta.resource_version ≡ d.meta.resource_version)

-- Failures are finite: a create of what is absent and an update of what is fresh fail at the cost of the
-- budget; reads find the object or find that there is none; and no object has another owner than the pod.
pub record IsFlaky {W : Type 0} (env : Env W) (pod : Pod) (budget : W → ℕ) : Type 0 where
  pub creates : IsCharged budget (IsAbsent env) env.create
  pub updates : IsCharged budget (IsFresh env) env.update
  pub updates_status : IsCharged budget (IsFresh env) env.update_status
  pub posts : (q : Request) (w : W) → budget (env.client.post q w).1 ≤ budget w
  pub reads :
      (k : Key) (w : W)
      → (view env k w ≡ inl not_found) ⊎ ((d : PodDiagnosis) × (view env k w ≡ inr d))
  pub updated :
      (d d' : PodDiagnosis) (w : W)
      → (env.update d w).0 ≡ inr d'
      → view env (key_of d) (env.update d w).1 ≡ inr d'
  pub owned :
      (d : PodDiagnosis)
      → (d' : PodDiagnosis) × (env.set_controller pod d ≡ some d')
        × (d'.meta.resource_version ≡ d.meta.resource_version)
