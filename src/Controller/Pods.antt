-- ===== src/Controller/Pods.antt =====
-- Pods as the reconciler reads them (fields of the Kubernetes types), and the pure functions on them.
pub mod Names
pub mod Failing
mod Tests
use Prim.Native.String.{◌++◌}
use poddoctor.Prelude.{
  String, Bool, true, false, not, Option, none, some, List, [], ◌∷◌, ◌==◌, ◌||◌, ℤ, any, is_empty,
  if◌then◌else◌,
}
use mathlib.Core.List.{◌++◌ as append}
use poddoctor.Api.{Time}

pub record Waiting : Type 0 where
  pub reason : String
  pub message : String

pub record Terminated : Type 0 where
  pub reason : String
  pub message : String
  pub exit_code : ℤ

-- `State.Waiting` and `LastTerminationState.Terminated` are pointers.
pub record ContainerStatus : Type 0 where
  pub name : String
  pub restart_count : ℤ
  pub waiting : Option Waiting
  pub terminated : Option Terminated

pub record OwnerReference : Type 0 where
  pub kind : String
  pub name : String

pub record Pod : Type 0 where
  pub name : String
  pub namespace : String
  pub uid : String
  pub node_name : String
  pub creation : Time
  pub deleting : Bool
  pub owners : List OwnerReference
  -- the label controller-revision-hash, empty where there is none
  pub revision_hash : String
  pub init_statuses : List ContainerStatus
  pub statuses : List ContainerStatus

pub record FailingContainer : Type 0 where
  pub status : ContainerStatus
  pub is_init : Bool

-- `triggerReasons`
unfoldable pub triggers : String → Bool
triggers reason =
    reason == "CrashLoopBackOff"
    || reason == "ImagePullBackOff"
    || reason == "ErrImagePull"
    || reason == "InvalidImageName"

-- The test of both loops of `findFailingContainers`.
unfoldable pub is_failing : ContainerStatus → Bool
is_failing cs = elim cs.waiting [ none ↦ false | some w ↦ triggers w.reason ]

unfoldable pub failing_among : Bool → List ContainerStatus → List FailingContainer
failing_among is_init [] = []
failing_among is_init (cs ∷ rest) =
    let later = failing_among is_init rest in
    if is_failing cs then record { status = cs; is_init = is_init } ∷ later else later

unfoldable pub find_failing_containers : Pod → List FailingContainer
find_failing_containers pod =
    append (failing_among true pod.init_statuses) (failing_among false pod.statuses)

-- The test of `failingPodPredicate` on a pod.
unfoldable pub failing_pod : Pod → Bool
failing_pod pod = not (is_empty (find_failing_containers pod))

unfoldable pub diagnosis_name : String → String → String
diagnosis_name pod_name container_name = pod_name ++ ("-" ++ container_name)

unfoldable pub termination_reason_of : ContainerStatus → String
termination_reason_of cs =
    let ended : String = elim cs.terminated [ none ↦ "" | some t ↦ t.reason ] in
    elim cs.waiting [ none ↦ ended | some w ↦ if not (w.reason == "") then w.reason else ended ]

unfoldable pub exit_code_ptr : ContainerStatus → Option ℤ
exit_code_ptr cs = elim cs.terminated [ none ↦ none | some t ↦ some t.exit_code ]

-- `findOwnerAny`: the first reference of one of the kinds.
unfoldable pub find_owner_any : List OwnerReference → List String → Option OwnerReference
find_owner_any [] kinds = none
find_owner_any (ref ∷ refs) kinds =
    if any (λ kind. ref.kind == kind) kinds then some ref else find_owner_any refs kinds

unfoldable pub find_owner : List OwnerReference → String → Option OwnerReference
unfolding find_owner_any
find_owner refs kind = find_owner_any refs (kind ∷ [])
