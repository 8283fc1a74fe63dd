-- ===== src/Controller/Reconcile/Walk.antt =====
-- A reconcileContainer from what holds at its start: what its writes keep, up to its announcement.
use poddoctor.Prelude.{Option, none, some, inl, inr, ◌⊎◌, ◌≡◌, refl, ap, ◌∙◌, Bool-cases}
use poddoctor.Api.{PodDiagnosis}
use poddoctor.Diagnosis.{Result}
use poddoctor.Controller.Pods.{Pod, FailingContainer}
use poddoctor.Controller.Evidence.{gather_evidence}
use poddoctor.Controller.Reconcile.{
  ApiError, already_exists, conflict, Env, Reconciler, State, spec_of, object_for, conclusion,
  diagnosed, is_current, finds, report, notify, conclude, examine, write, proceed,
  reconcile_container,
}
use poddoctor.Controller.Reconcile.Server.{HasKey, view, IsServer, HasKey-trans}
use poddoctor.Controller.Reconcile.Keyed.{key_for, owned-Named, finds_found}
use poddoctor.Controller.Reconcile.Conclude.{KeepsSpec, IsFor, object_for-spec}

module _ {W : Type 0} (env : Env W) (r : Reconciler) (laws : IsServer env) (pod : Pod)
    (fc : FailingContainer) where
  abbrev pub Named : PodDiagnosis → Type 0
  Named = HasKey (key_for pod fc.status)

  -- The object that the status update has answered, with the container's restart count.
  pub record IsAnswered (d : PodDiagnosis) : Type 0 where
    pub specified : KeepsSpec env → d.spec ≡ spec_of pod fc.status
    pub restarts : d.status.restart_count ≡ fc.status.restart_count

  -- What holds before the announcement and after a reconcileContainer: its three writes, each of an
  -- object with the container's key, keep the one, and the announcement makes the other of it.
  pub record IsWalk (P Q : (State W → Type 0)) : Type 0 where
    pub creates :
        (d : PodDiagnosis) (s : State W)
        → Named d
        → P s
        → P (record s { world = (env.create d s.world).1 })
    pub updates :
        (d : PodDiagnosis) (s : State W)
        → Named d
        → P s
        → P (record s { world = (env.update d s.world).1 })
    pub updates_status :
        (d : PodDiagnosis) (s : State W)
        → Named d
        → P s
        → P (record s { world = (env.update_status d s.world).1 })
    pub announces :
        (result : Result) (d : PodDiagnosis) (s : State W)
        → IsAnswered d
        → P s
        → Q (notify env r pod result d (report env r pod result s))
    pub rests : (s : State W) → P s → Q s

  module _ (P Q : (State W → Type 0)) (k : IsWalk P Q) where
    abbrev Own : PodDiagnosis → Type 0
    Own = IsFor env r laws pod fc

    conclude_walk :
        (result : Result) (a : ApiError ⊎ PodDiagnosis) (s : State W)
        → ((d : PodDiagnosis) → a ≡ inr d → IsAnswered d)
        → P s
        → Q (conclude env r pod result a s).1
    unfolding conclude
    conclude_walk result (inl e) s n h = k.rests s h
    conclude_walk result (inr d) s n h = k.announces result d s (n d refl) h

    examine_walk :
        (expected : ApiError) (a : ApiError ⊎ PodDiagnosis) (s : State W)
        → ((d : PodDiagnosis) → a ≡ inr d → Own d)
        → P s
        → Q (examine env r pod fc expected a s).1
    unfolding examine diagnosed
    examine_walk expected (inl e) s n h = k.rests s h
    examine_walk expected (inr d) s n h =
        let ev = gather_evidence (env.reads s.world) r.settings pod fc.status in
        let result = conclusion ev fc in
        let sent = diagnosed d ev result fc.status (env.now s.world) in
        conclude_walk result (env.update_status sent s.world).0
          (record s { world = (env.update_status sent s.world).1 })
          (λ d' e. record {
            specified = λ q. q.status_updated sent d' s.world e ∙ (n d refl).specified q;
            restarts = ap (λ x. x.restart_count) (laws.status_stored sent d' s.world e).1;
          })
          (k.updates_status sent s (n d refl).named h)

    write_walk :
        (found owned : Option PodDiagnosis) (s : State W)
        → ((d : PodDiagnosis) → owned ≡ some d → Own d)
        → P s
        → Q (write env r pod fc found owned s).1
    unfolding write
    write_walk found none s n h = k.rests s h
    write_walk none (some d) s n h =
        examine_walk already_exists (env.create d s.world).0 (record s { world = _ })
          (λ d' e. record {
            named = HasKey-trans _ d d' (laws.creates.answered d d' s.world e) (n d refl).named;
            specified = λ q. q.created d d' s.world e ∙ (n d refl).specified q;
          })
          (k.creates d s (n d refl).named h)
    write_walk (some _) (some d) s n h =
        examine_walk conflict (env.update d s.world).0 (record s { world = _ })
          (λ d' e. record {
            named = HasKey-trans _ d d' (laws.updates.answered d d' s.world e) (n d refl).named;
            specified = λ q. q.updated d d' s.world e ∙ (n d refl).specified q;
          })
          (k.updates d s (n d refl).named h)

    proceed_walk :
        (a : ApiError ⊎ Option PodDiagnosis) (s : State W)
        → ((d : PodDiagnosis) → a ≡ inr (some d) → view env (key_for pod fc.status) s.world ≡ inr d)
        → P s
        → Q (proceed env r pod fc a s).1
    unfolding proceed
    proceed_walk (inl e) s n h = k.rests s h
    proceed_walk (inr found) s n h = elim (Bool-cases (is_current found fc.status)) [
      | inl b ↦ rw b (k.rests s h)
      | inr b ↦ rw b (
          write_walk found _ s
            (λ d e. record {
              named = owned-Named env r laws pod fc found s.world (λ d e. n d (ap inr e)) d e;
              specified = λ q.
                  q.owned pod (object_for pod fc.status found) d e
                  ∙ object_for-spec env r laws pod fc found;
            })
            h)
    ]

    pub reconcile_container_walk : (s : State W) → P s → Q (reconcile_container env r pod fc s).1
    unfolding reconcile_container
    reconcile_container_walk s h =
        proceed_walk (finds (view env (key_for pod fc.status) s.world)) s
          (λ d e. finds_found env r laws pod fc _ d e) h
