-- ===== src/Controller/Reconcile.antt =====
-- `Reconcile` and `reconcileContainer`. The API server, the clock and the HTTP client are a parameter,
-- `Env`, over the world that they read and change. A call that succeeds answers with the object as the
-- server returns it, which is what the client library writes into its argument. Logging is left out.
-- Objects has the types, Server what the reconciler relies on of the API server, Memory a server that
-- satisfies it, and Sample a pod for the tests. Walk and Each carry a property of states through
-- reconcileContainer and Reconcile.
pub mod Objects
pub mod Server
pub mod Written
pub mod Quiet
pub mod Keyed
pub mod Episode
pub mod Walk
pub mod Each
pub mod Isolated
pub mod Others
pub mod Pass
pub mod Conclude
pub mod Announce
pub mod Lost
pub mod Once
pub mod Groups
pub mod Retry
pub mod Webhook
pub mod Schema
pub mod Memory
pub mod Sample
mod Tests
use Prim.Native.String.{◌++◌}
use poddoctor.Prelude.{
  String, Bool, true, false, not, Option, none, some, List, [], ◌∷◌, ◌⊎◌, inl, inr, ◌*◌, ◌^◌, pos,
  is_empty, if◌then◌else◌,
}
use poddoctor.Api.{Duration, cause_name, PodDiagnosis}
use poddoctor.Diagnosis.{Result}
use poddoctor.AlertGroup.{observe}
use poddoctor.Notify.Router.{route}
use poddoctor.Notify.Send.{send}
use poddoctor.Controller.Pods.{Pod, FailingContainer, find_failing_containers, diagnosis_name}
use poddoctor.Controller.Evidence.{gather_evidence}
pub use poddoctor.Controller.Reconcile.Objects.{
  ApiError, not_found, already_exists, conflict, other, Env, Reconciler, Effect, counted, recorded,
  State, Failure, api, ownership, Answer,
}
unfoldable pub use poddoctor.Controller.Reconcile.Objects.{
  same_error, refused, spec_of, object_for, conclusion, diagnosed, event_text, is_current, finds,
}

-- A step of the reconciler on the state.
abbrev pub Step : Type 0 → Type 0
Step W = State W → Answer × State W

unfoldable pub and_then : {W : Type 0} → Step W → Answer × State W → Answer × State W
and_then rest (inl e, s) = (inl e, s)
and_then rest (inr true, s) = (inr true, s)
and_then rest (inr false, s) = rest s

module _ {W : Type 0} (env : Env W) (r : Reconciler) where
  -- The metric and the event.
  unfoldable pub report : Pod → Result → State W → State W
  report pod result s = record s {
    effects =
        if r.has_recorder
        then recorded pod (event_text result)
          ∷ (counted result.root_cause result.confidence ∷ s.effects)
        else counted result.root_cause result.confidence ∷ s.effects;
  }

  -- The notification, where the namespace has a target and the group is not suppressed.
  unfoldable pub notify : Pod → Result → PodDiagnosis → State W → State W
  notify pod result d s =
      let target = route r.notify_router pod.namespace in
      let (verdict, grouper) =
        observe s.grouper (pod.namespace ++ ("/" ++ cause_name result.root_cause))
          (env.now s.world) in
      if not target.ok
      then s
      else if not verdict.ok
      then record s { grouper = grouper }
      else record s {
        world =
            (send env.client target.url target.format target.token
              (record {
                diag = d;
                cluster = r.cluster_name;
                suppressed_count = pos verdict.suppressed;
              })
              s.world).1;
        grouper = grouper;
      }

  -- After the status update.
  unfoldable pub conclude : Pod → Result → ApiError ⊎ PodDiagnosis → Step W
  conclude pod result (inl e) s = (refused conflict e, s)
  conclude pod result (inr d) s = (inr false, notify pod result d (report pod result s))

  -- After the object was written: `expected` is the error of the write that asks for a requeue.
  unfoldable pub examine : Pod → FailingContainer → ApiError → ApiError ⊎ PodDiagnosis → Step W
  examine pod fc expected (inl e) s = (refused expected e, s)
  examine pod fc expected (inr d) s =
      let ev = gather_evidence (env.reads s.world) r.settings pod fc.status in
      let result = conclusion ev fc in
      let (answer, w) =
        env.update_status (diagnosed d ev result fc.status (env.now s.world)) s.world in
      conclude pod result answer (record s { world = w })

  -- The write of the object: it is new where none was found.
  unfoldable pub write : Pod → FailingContainer → Option PodDiagnosis → Option PodDiagnosis → Step W
  write pod fc found none s = (inl ownership, s)
  write pod fc none (some d) s =
      let (answer, w) = env.create d s.world in
      examine pod fc already_exists answer (record s { world = w })
  write pod fc (some _) (some d) s =
      let (answer, w) = env.update d s.world in
      examine pod fc conflict answer (record s { world = w })

  -- After the read of the object.
  unfoldable pub proceed : Pod → FailingContainer → ApiError ⊎ Option PodDiagnosis → Step W
  proceed pod fc (inl e) s = (inl (api e), s)
  proceed pod fc (inr found) s =
      if is_current found fc.status
      then (inr false, s)
      else write pod fc found (env.set_controller pod (object_for pod fc.status found)) s

  -- `reconcileContainer`
  unfoldable pub reconcile_container : Pod → FailingContainer → Step W
  reconcile_container pod fc s =
      proceed pod fc
        (finds (env.get_diagnosis pod.namespace (diagnosis_name pod.name fc.status.name) s.world)) s

  -- The loop of `Reconcile`: it stops at the first error or requeue.
  unfoldable pub reconcile_each : Pod → List FailingContainer → Step W
  reconcile_each pod [] s = (inr false, s)
  reconcile_each pod (fc ∷ rest) s =
      and_then (λ s'. reconcile_each pod rest s') (reconcile_container pod fc s)

-- ctrl.Result
pub record Outcome : Type 0 where
  pub requeue : Bool
  pub requeue_after : Duration

abbrev pub diagnosis_requeue_interval : Duration
diagnosis_requeue_interval = pos (120 * 10 ^ 9)

abbrev pub at_rest : Outcome
at_rest = record { requeue = false; requeue_after = pos 0 }

unfoldable pub outcome_of : Answer → Failure ⊎ Outcome
outcome_of (inl e) = inl e
outcome_of (inr true) = inr (record { requeue = true; requeue_after = pos 0 })
outcome_of (inr false) =
    inr (record { requeue = false; requeue_after = diagnosis_requeue_interval })

module _ {W : Type 0} (env : Env W) (r : Reconciler) where
  -- After the read of the pod.
  unfoldable pub reconcile_pod : ApiError ⊎ Pod → State W → (Failure ⊎ Outcome) × State W
  reconcile_pod (inl not_found) s = (inr at_rest, s)
  reconcile_pod (inl e) s = (inl (api e), s)
  reconcile_pod (inr pod) s =
      if pod.deleting
      then (inr at_rest, s)
      else if is_empty (find_failing_containers pod)
      then (inr at_rest, s)
      else (let (answer, s') = reconcile_each env r pod (find_failing_containers pod) s in
          (outcome_of answer, s'))

  -- `Reconcile`, on the key of a pod.
  unfoldable pub reconcile : (namespace name : String) → State W → (Failure ⊎ Outcome) × State W
  reconcile namespace name s = reconcile_pod (env.get_pod namespace name s.world) s
