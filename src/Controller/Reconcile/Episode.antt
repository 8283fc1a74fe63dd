-- ===== src/Controller/Reconcile/Episode.antt =====
-- One failure episode of one container, the restart count that its diagnosis carries.
use poddoctor.Prelude.{false, inl, inr, ◌≡◌, refl, ap, ◌∙◌, subst, int_eq_refl}
use poddoctor.Controller.Pods.{Pod, FailingContainer}
use poddoctor.Controller.Reconcile.{
  Env, Reconciler, State, is_current, finds, proceed, reconcile_container,
}
use poddoctor.Controller.Reconcile.Server.{IsServer}
use poddoctor.Controller.Reconcile.Keyed.{IsCurrent}
use poddoctor.Controller.Reconcile.Conclude.{reconcile_container-IsConcluded, stored_at_end}

module _ {W : Type 0} (env : Env W) (r : Reconciler) (laws : IsServer env) where
  module _ (pod : Pod) (fc : FailingContainer) where
    -- A reconcileContainer that is done, without an error or a requeue, leaves a stored object
    -- whose last diagnosed restart count is the container's restart count, whatever branch it took.
    pub reconcile_container-IsCurrent :
        (s : State W)
        → (reconcile_container env r pod fc s).0 ≡ inr false
        → IsCurrent env pod fc.status (reconcile_container env r pod fc s).1.world
    reconcile_container-IsCurrent s done =
        elim (reconcile_container-IsConcluded env r laws pod fc s done) [
          | inl (e, c) ↦ rw e c
          | inr c ↦
              let (v, same) = stored_at_end env r laws pod fc s _ c in
              (c.answered, v, ap (λ t. t.last_diagnosed_restart_count) same ∙ c.last)
        ]

    -- A container whose stored object carries its restart count is left alone: nothing is written,
    -- counted, recorded or sent.
    pub reconcile_container_rests :
        (s : State W)
        → IsCurrent env pod fc.status s.world
        → reconcile_container env r pod fc s ≡ (inr false, s)
    unfolding reconcile_container proceed finds is_current
    reconcile_container_rests s (d, v, c) = rw (v, c, int_eq_refl fc.status.restart_count)

    -- So a second reconcile of a container that is done does nothing.
    pub reconcile_container_twice :
        (s s' : State W)
        → reconcile_container env r pod fc s ≡ (inr false, s')
        → reconcile_container env r pod fc s' ≡ (inr false, s')
    reconcile_container_twice s s' e = reconcile_container_rests s' (
        subst (λ x. x.0 ≡ inr false → IsCurrent env pod fc.status x.1.world) e
          (reconcile_container-IsCurrent s) refl)
