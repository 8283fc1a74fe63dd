-- ===== src/Controller/Reconcile/Isolated.antt =====
-- `Reconcile` of a pod and the other namespaces.
mod Tests
use poddoctor.Prelude.{String, List, inl, inr, ◌⊎◌, ◌≡◌, ◌≢◌, refl, sym, ◌∙◌, subst, All, ◌∷◌, []}
use poddoctor.Api.{RootCause}
use poddoctor.AlertGroup.{lookup}
use poddoctor.Controller.Pods.{Pod, FailingContainer, find_failing_containers}
use poddoctor.Controller.Reconcile.{
  ApiError, Env, Reconciler, State, report, reconcile_container, reconcile,
}
use poddoctor.Controller.Reconcile.Server.{view, IsServer}
use poddoctor.Controller.Reconcile.Walk.{IsWalk, reconcile_container_walk}
use poddoctor.Controller.Reconcile.Each.{reconcile_pod_kept}
use poddoctor.Controller.Reconcile.Others.{reconcile_container-Keeps}
use poddoctor.Controller.Reconcile.Groups.{HasNoSlash, group_key, notify-lookup}

-- The pod that is read has the namespace that was asked for.
abbrev pub IsAsked : String → ApiError ⊎ Pod → Type 0
IsAsked namespace (inl e) = Unit
IsAsked namespace (inr pod) = pod.namespace ≡ namespace

module _ {W : Type 0} (env : Env W) (r : Reconciler) (laws : IsServer env) where
  -- Two states that a namespace cannot tell apart: by its objects, and by its alert groups.
  pub record IsSame (namespace : String) (s t : State W) : Type 0 where
    pub objects :
        (name : String)
        → view env (record { namespace = namespace; name = name }) t.world
          ≡ view env (record { namespace = namespace; name = name }) s.world
    pub groups :
        (cause : RootCause)
        → lookup (group_key namespace cause) t.grouper.state
          ≡ lookup (group_key namespace cause) s.grouper.state

  module _ (pod : Pod) (away : String) (apart : pod.namespace ≢ away)
      (plain : HasNoSlash pod.namespace) (plain' : HasNoSlash away) (fc : FailingContainer) where
    abbrev KeepsGroup : State W → RootCause → State W → Type 0
    KeepsGroup s cause t =
        lookup (group_key away cause) t.grouper.state
        ≡ lookup (group_key away cause) s.grouper.state

    groups-IsWalk :
        (s : State W) (cause : RootCause)
        → IsWalk env r laws pod fc (KeepsGroup s cause) (KeepsGroup s cause)
    unfolding report
    groups-IsWalk s cause = record {
      creates = λ d t n h. h;
      updates = λ d t n h. h;
      updates_status = λ d t n h. h;
      announces = λ result d t a h.
          notify-lookup env r pod result d (report env r pod result t) away cause plain plain'
            (inl apart)
          ∙ h;
      rests = λ t h. h;
    }

    container-IsSame :
        (s t : State W) → IsSame away s t → IsSame away s (reconcile_container env r pod fc t).1
    container-IsSame s t h = record {
      objects = λ name.
          reconcile_container-Keeps env r laws pod fc (record { namespace = away; name = name })
            (inl (λ e. apart (sym e))) t
          ∙ h.objects name;
      groups = λ cause.
          reconcile_container_walk env r laws pod fc (KeepsGroup s cause) (KeepsGroup s cause)
            (groups-IsWalk s cause) t (h.groups cause);
    }

  All-any :
      (P : FailingContainer → Type 0) (fcs : List FailingContainer) → ((fc : _) → P fc) → All P fcs
  All-any P [] h = tt
  All-any P (fc ∷ rest) h = (h fc, All-any P rest h)

  -- Over an API server that keeps objects by key and answers with a pod of the namespace that was
  -- asked for, where names of namespaces have no slash: a Reconcile of a pod, however it ends,
  -- leaves the stored objects of every other namespace, and the alert groups of it, as they are.
  pub reconcile-IsSame :
      (namespace name away : String) (s : State W)
      → IsAsked namespace (env.get_pod namespace name s.world)
      → namespace ≢ away
      → HasNoSlash namespace
      → HasNoSlash away
      → IsSame away s (reconcile env r namespace name s).1
  unfolding reconcile
  reconcile-IsSame namespace name away s asked apart plain plain' =
      reconcile_pod_kept env r (IsSame away s) (λ _ _. Unit) (env.get_pod namespace name s.world)
        (λ pod e fc _ t h.
          let here : pod.namespace ≡ namespace = subst (IsAsked namespace) e asked in
          container-IsSame pod away (λ q. apart (sym here ∙ q)) (subst HasNoSlash (sym here) plain)
            plain' fc s t h)
        (λ pod e. All-any (λ _. Unit) (find_failing_containers pod) (λ _. tt)) s
        (record { objects = λ _. refl; groups = λ _. refl })
