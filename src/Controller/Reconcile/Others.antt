-- ===== src/Controller/Reconcile/Others.antt =====
-- `reconcileContainer` and the objects of the other containers.
use poddoctor.Prelude.{◌≡◌, refl, ◌∙◌}
use poddoctor.Api.{PodDiagnosis}
use poddoctor.Controller.Pods.{Pod, FailingContainer}
use poddoctor.Controller.Reconcile.{Env, Reconciler, State, report, reconcile_container}
use poddoctor.Controller.Reconcile.Server.{Key, key_of, IsOther, view, IsServer}
use poddoctor.Controller.Reconcile.Keyed.{key_for, view-notify}
use poddoctor.Controller.Reconcile.Walk.{Named, IsWalk, reconcile_container_walk}

module _ {W : Type 0} (env : Env W) (r : Reconciler) (laws : IsServer env) (pod : Pod)
    (fc : FailingContainer) (k : Key) (apart : IsOther k (key_for pod fc.status)) where
  away : (d : PodDiagnosis) → Named env r laws pod fc d → IsOther k (key_of d)
  away d (a, b) = rw (a, b) apart

  abbrev Keeps : State W → State W → Type 0
  Keeps s t = view env k t.world ≡ view env k s.world

  view-IsWalk : (s : State W) → IsWalk env r laws pod fc (Keeps s) (Keeps s)
  unfolding report
  view-IsWalk s = record {
    creates = λ d t n h. laws.creates.others d k t.world (away d n) ∙ h;
    updates = λ d t n h. laws.updates.others d k t.world (away d n) ∙ h;
    updates_status = λ d t n h. laws.updates_status.others d k t.world (away d n) ∙ h;
    announces =
        λ result d t a h. view-notify env r laws k pod result d (report env r pod result t) ∙ h;
    rests = λ t h. h;
  }

  -- A reconcile of one container leaves the objects of all others alone.
  pub reconcile_container-Keeps :
      (s : State W) → view env k (reconcile_container env r pod fc s).1.world ≡ view env k s.world
  reconcile_container-Keeps s =
      reconcile_container_walk env r laws pod fc (Keeps s) (Keeps s) (view-IsWalk s) s refl
