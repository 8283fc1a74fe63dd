-- ===== src/Controller/Reconcile/Keyed.antt =====
-- The object of a container: under which key it is read and written, and what leaves it alone.
use Prim.Native.String.{◌++◌}
use poddoctor.Prelude.{
  String, true, false, Option, none, some, inl, inr, ◌⊎◌, ◌≡◌, ◌≢◌, refl, arith, int_eq_iff,
  Bool-cases,
}
use poddoctor.Api.{PodDiagnosis, cause_name}
use poddoctor.Diagnosis.{Result}
use poddoctor.AlertGroup.{observe}
use poddoctor.Notify.Router.{route}
use poddoctor.Notify.Send.{send}
use poddoctor.Controller.Pods.{Pod, ContainerStatus, FailingContainer, diagnosis_name}
use poddoctor.Controller.Reconcile.{
  ApiError, not_found, already_exists, conflict, other, same_error, Env, Reconciler, State, refused,
  object_for, is_current, finds, notify,
}
use poddoctor.Controller.Reconcile.Server.{Key, HasKey, view, IsServer, HasKey-trans}

abbrev pub key_for : Pod → ContainerStatus → Key
key_for pod cs = record { namespace = pod.namespace; name = diagnosis_name pod.name cs.name }

-- The stored object of the container carries its restart count.
abbrev pub IsCurrent : {W : Type 0} → Env W → Pod → ContainerStatus → W → Type 0
IsCurrent env pod cs w =
    (d : PodDiagnosis) × (view env (key_for pod cs) w ≡ inr d)
    × (d.status.last_diagnosed_restart_count ≡ cs.restart_count)

pub refused_not_done : (expected e : ApiError) → refused expected e ≢ inr false
unfolding refused
refused_not_done expected e h = elim (Bool-cases (same_error e expected)) [
  | inl b ↦ ground arith
  | inr b ↦ ground arith
]

module _ {W : Type 0} (env : Env W) (r : Reconciler) (laws : IsServer env) where
  view-send :
      (k : Key) (url format token : String) (n : _) (w : W)
      → view env k (send env.client url format token n w).1 ≡ view env k w
  unfolding send
  view-send k url format token n w = elim (Bool-cases (env.client.valid_url url)) [
    | inl e ↦ rw e (laws.posted k _ w)
    | inr e ↦ rw e
  ]

  -- A notification leaves the objects alone.
  pub view-notify :
      (k : Key) (pod : Pod) (result : Result) (d : PodDiagnosis) (s : State W)
      → view env k (notify env r pod result d s).world ≡ view env k s.world
  unfolding notify
  view-notify k pod result d s = elim (Bool-cases (route r.notify_router pod.namespace).ok) [
    | inr e ↦ rw e
    | inl e ↦
        elim (Bool-cases
          (observe s.grouper (pod.namespace ++ ("/" ++ cause_name result.root_cause))
            (env.now s.world)).0.ok) [
              | inr q ↦ rw (e, q)
              | inl q ↦ rw (e, q) (view-send k _ _ _ _ s.world)
            ]
  ]

  module _ (pod : Pod) (fc : FailingContainer) where
    abbrev Named : PodDiagnosis → Type 0
    Named = HasKey (key_for pod fc.status)

    object_for-Named :
        (found : Option PodDiagnosis)
        → ((d : PodDiagnosis) → found ≡ some d → Named d)
        → Named (object_for pod fc.status found)
    unfolding object_for
    object_for-Named none h = (refl, refl)
    object_for-Named (some d) h = h d refl

    -- The object that is written has the container's key.
    pub owned-Named :
        (found : Option PodDiagnosis) (w : W)
        → ((d : PodDiagnosis) → found ≡ some d → view env (key_for pod fc.status) w ≡ inr d)
        → (d : PodDiagnosis) → env.set_controller pod (object_for pod fc.status found) ≡ some d
        → Named d
    owned-Named found w h d e =
        HasKey-trans _ (object_for pod fc.status found) d
          (laws.owned pod (object_for pod fc.status found) d e).0
          (object_for-Named found (λ d' e'. laws.found _ d' w (h d' e')))

    pub is_current_lem :
        (found : Option PodDiagnosis)
        → is_current found fc.status ≡ true
        → (d : PodDiagnosis) × (found ≡ some d)
          × (d.status.last_diagnosed_restart_count ≡ fc.status.restart_count)
    unfolding is_current
    is_current_lem none h = cc
    is_current_lem (some d) h = (d, refl, (int_eq_iff _ _).0 h)

    pub finds_found :
        (a : ApiError ⊎ PodDiagnosis) (d : PodDiagnosis) → finds a ≡ inr (some d) → a ≡ inr d
    unfolding finds
    finds_found (inl not_found) d e = cc
    finds_found (inl already_exists) d e = cc
    finds_found (inl conflict) d e = cc
    finds_found (inl other) d e = cc
    finds_found (inr d') d e = ground arith
