-- ===== src/Controller/Reconcile/Objects.antt =====
-- What `Reconcile` reads and writes: the parameters, the state, and the objects it builds.
use Prim.Native.String.{◌++◌}
use poddoctor.Prelude.{
  String, Bool, true, false, Option, none, some, List, ◌⊎◌, inl, inr, nat_eq, int_eq, if◌then◌else◌,
}
use poddoctor.Api.{
  Time, RootCause, cause_name, Confidence, confidence_name, PodDiagnosisSpec, zero_status,
  PodDiagnosis,
}
use poddoctor.Diagnosis.{Evidence, Result, diagnose}
use poddoctor.AlertGroup.{Grouper}
use poddoctor.Notify.Router.{Router}
use poddoctor.Notify.Send.{HttpClient}
use poddoctor.Controller.Pods.{
  Pod, ContainerStatus, FailingContainer, diagnosis_name, exit_code_ptr, termination_reason_of,
}
use poddoctor.Controller.Evidence.{Cluster, Settings}

-- The errors that the reconciler tells apart.
pub data ApiError : Type 0 where
  not_found already_exists conflict other : ApiError

unfoldable pub same_error : ApiError → ApiError → Bool
same_error not_found not_found = true
same_error already_exists already_exists = true
same_error conflict conflict = true
same_error other other = true
same_error _ _ = false

-- `set_controller` is ctrl.SetControllerReference, none for its error.
pub record Env (W : Type 0) : Type 0 where
  pub get_pod : String → String → W → ApiError ⊎ Pod
  pub get_diagnosis : String → String → W → ApiError ⊎ PodDiagnosis
  pub set_controller : Pod → PodDiagnosis → Option PodDiagnosis
  pub create : PodDiagnosis → W → (ApiError ⊎ PodDiagnosis) × W
  pub update : PodDiagnosis → W → (ApiError ⊎ PodDiagnosis) × W
  pub update_status : PodDiagnosis → W → (ApiError ⊎ PodDiagnosis) × W
  pub reads : W → Cluster
  pub now : W → Time
  pub client : HttpClient W

-- The fields of the reconciler that stay as they are set up.
pub record Reconciler : Type 0 where
  pub settings : Settings
  pub cluster_name : String
  pub has_recorder : Bool
  pub notify_router : Option Router

-- What a reconcile leaves behind outside the API objects: an increment of `DiagnosesTotal`, and an
-- event of the recorder on a pod.
pub data Effect : Type 0 where
  counted : RootCause → Confidence → Effect
  recorded : Pod → String → Effect

pub record State (W : Type 0) : Type 0 where
  pub world : W
  pub grouper : Grouper
  pub effects : List Effect

pub data Failure : Type 0 where
  api : ApiError → Failure
  ownership : Failure

-- What `reconcileContainer` returns: an error, or `needsRequeue`.
abbrev pub Answer : Type 0
Answer = Failure ⊎ Bool

-- `expected` asks for a requeue; any other error is returned.
unfoldable pub refused : ApiError → ApiError → Answer
refused expected e = if same_error e expected then inr true else inl (api e)

unfoldable pub spec_of : Pod → ContainerStatus → PodDiagnosisSpec
spec_of pod cs = record {
  pod_name = pod.name;
  pod_namespace = pod.namespace;
  container_name = cs.name;
  pod_uid = pod.uid;
}

-- The object before its owner is set: the one found, or a new one, with the specification.
unfoldable pub object_for : Pod → ContainerStatus → Option PodDiagnosis → PodDiagnosis
object_for pod cs none = record {
  meta = record {
    name = diagnosis_name pod.name cs.name;
    namespace = pod.namespace;
    controller = none;
    resource_version = 0;
  };
  spec = spec_of pod cs;
  status = zero_status;
}
object_for pod cs (some d) = record d { spec = spec_of pod cs }

unfoldable pub conclusion : Evidence → FailingContainer → Result
conclusion ev fc =
    let result = diagnose ev in
    if fc.is_init then record result { summary = "[init container] " ++ result.summary } else result

-- The object with the status of this diagnosis.
unfoldable pub diagnosed : PodDiagnosis → Evidence → Result → ContainerStatus → Time → PodDiagnosis
diagnosed d ev result cs now = record d {
  status = record {
    phase = "Diagnosed";
    root_cause = result.root_cause;
    confidence = result.confidence;
    summary = result.summary;
    recommendation = result.recommendation;
    exit_code = exit_code_ptr cs;
    termination_reason = termination_reason_of cs;
    restart_count = cs.restart_count;
    last_diagnosed_restart_count = cs.restart_count;
    recent_events = ev.recent_events;
    log_excerpt = ev.log_tail;
    rollout_context = ev.rollout_context;
    first_observed = if nat_eq d.status.first_observed 0 then now else d.status.first_observed;
    last_observed = now;
  };
}

unfoldable pub event_text : Result → String
event_text result =
    "["
    ++ (cause_name result.root_cause
        ++ ("/"
            ++ (confidence_name result.confidence
                ++ ("] " ++ (result.summary ++ (" " ++ result.recommendation))))))

-- This episode was diagnosed already.
unfoldable pub is_current : Option PodDiagnosis → ContainerStatus → Bool
is_current none cs = false
is_current (some d) cs = int_eq d.status.last_diagnosed_restart_count cs.restart_count

-- `finds` sets apart the object that is not there from a failed read.
unfoldable pub finds : ApiError ⊎ PodDiagnosis → ApiError ⊎ Option PodDiagnosis
finds (inl not_found) = inr none
finds (inl e) = inl e
finds (inr d) = inr (some d)
