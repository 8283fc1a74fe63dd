-- ===== src/Controller/Reconcile/Conclude.antt =====
-- `reconcileContainer` that comes to its end: the status update it has made, and the metric, event and
-- notification on top of it.
use poddoctor.Prelude.{
  false, Option, none, some, inl, inr, ◌⊎◌, ◌≡◌, refl, sym, ap, ◌∙◌, Bool-cases,
}
use poddoctor.Api.{PodDiagnosisStatus, PodDiagnosis}
use poddoctor.Diagnosis.{Result}
use poddoctor.Controller.Pods.{Pod, FailingContainer}
use poddoctor.Controller.Evidence.{gather_evidence}
use poddoctor.Controller.Reconcile.{
  ApiError, already_exists, conflict, Env, Reconciler, State, Answer, spec_of, object_for,
  conclusion, diagnosed, is_current, finds, report, notify, conclude, examine, write, proceed,
  reconcile_container,
}
use poddoctor.Controller.Reconcile.Written.{written}
use poddoctor.Controller.Reconcile.Server.{HasKey, view, IsServer, HasKey-trans, view-key_of}
use poddoctor.Controller.Reconcile.Keyed.{
  key_for, IsCurrent, is_current_lem, refused_not_done, view-notify, owned-Named, finds_found,
}

-- The diagnosis that a status carries.
abbrev pub result_of : PodDiagnosisStatus → Result
result_of st = record {
  root_cause = st.root_cause;
  confidence = st.confidence;
  summary = st.summary;
  recommendation = st.recommendation;
}

-- The API server keeps the specification of what it is given.
pub record KeepsSpec {W : Type 0} (env : Env W) : Type 0 where
  pub owned :
      (pod : Pod) (d d' : PodDiagnosis) → env.set_controller pod d ≡ some d' → d'.spec ≡ d.spec
  pub created : (d d' : PodDiagnosis) (w : W) → (env.create d w).0 ≡ inr d' → d'.spec ≡ d.spec
  pub updated : (d d' : PodDiagnosis) (w : W) → (env.update d w).0 ≡ inr d' → d'.spec ≡ d.spec
  pub status_updated :
      (d d' : PodDiagnosis) (w : W) → (env.update_status d w).0 ≡ inr d' → d'.spec ≡ d.spec

-- The world after an object was created or updated.
abbrev pub IsWritten : {W : Type 0} → Env W → W → W → Type 0
IsWritten env w w' = (d : PodDiagnosis) × ((w' ≡ (env.create d w).1) ⊎ (w' ≡ (env.update d w).1))

module _ {W : Type 0} (env : Env W) (r : Reconciler) (laws : IsServer env) (pod : Pod)
    (fc : FailingContainer) where
  -- The object is the container's: by its key, and by its specification.
  pub record IsFor (d : PodDiagnosis) : Type 0 where
    pub named : HasKey (key_for pod fc.status) d
    pub specified : KeepsSpec env → d.spec ≡ spec_of pod fc.status

  -- The end of a reconcileContainer, from the state that it began with.
  pub record IsConcluded (origin s : State W) : Type 0 where
    pub sent : PodDiagnosis
    pub answered : PodDiagnosis
    pub world : W
    pub result : Result
    pub written : IsWritten env origin.world world
    pub is_for : IsFor sent
    pub concludes : result_of sent.status ≡ result
    pub restarts : sent.status.restart_count ≡ fc.status.restart_count
    pub last : sent.status.last_diagnosed_restart_count ≡ fc.status.restart_count
    pub updated : (env.update_status sent world).0 ≡ inr answered
    pub ends :
        s
        ≡ notify env r pod result answered (
            report env r pod result (record {
              world = (env.update_status sent world).1;
              grouper = origin.grouper;
              effects = origin.effects;
            }))

  abbrev Concludes : State W → Answer × State W → Type 0
  Concludes origin x = x.0 ≡ inr false → IsConcluded origin x.1

  conclude-IsConcluded :
      (sent : PodDiagnosis) (result : Result) (origin : State W) (w : W)
      → IsWritten env origin.world w
      → IsFor sent
      → result_of sent.status ≡ result
      → sent.status.restart_count ≡ fc.status.restart_count
      → sent.status.last_diagnosed_restart_count ≡ fc.status.restart_count
      → (a : ApiError ⊎ PodDiagnosis) → (env.update_status sent w).0 ≡ a
      → Concludes origin
          (conclude env r pod result a (record origin { world = (env.update_status sent w).1 }))
  unfolding conclude
  conclude-IsConcluded sent result origin w b f c n l (inl e) q done =
      absurd (refused_not_done conflict e done)
  conclude-IsConcluded sent result origin w b f c n l (inr d') q done = record {
    sent = sent;
    answered = d';
    world = w;
    result = result;
    written = b;
    is_for = f;
    concludes = c;
    restarts = n;
    last = l;
    updated = q;
    ends = refl;
  }

  examine-IsConcluded :
      (expected : ApiError) (a : ApiError ⊎ PodDiagnosis) (origin : State W) (w : W)
      → IsWritten env origin.world w
      → ((d : PodDiagnosis) → a ≡ inr d → IsFor d)
      → Concludes origin (examine env r pod fc expected a (record origin { world = w }))
  unfolding examine diagnosed
  examine-IsConcluded expected (inl e) origin w b h =
      λ done. absurd (refused_not_done expected e done)
  examine-IsConcluded expected (inr d) origin w b h =
      let ev = gather_evidence (env.reads w) r.settings pod fc.status in
      let result = conclusion ev fc in
      let sent = diagnosed d ev result fc.status (env.now w) in
      let f = h d refl in
      conclude-IsConcluded sent result origin w b
        (record { named = f.named; specified = f.specified }) refl refl refl _ refl

  pub object_for-spec :
      (found : Option PodDiagnosis) → (object_for pod fc.status found).spec ≡ spec_of pod fc.status
  unfolding object_for
  object_for-spec none = refl
  object_for-spec (some d) = refl

  write-IsConcluded :
      (found owned : Option PodDiagnosis) (s : State W)
      → ((d : PodDiagnosis) → owned ≡ some d → IsFor d)
      → Concludes s (write env r pod fc found owned s)
  unfolding write
  write-IsConcluded found none s h = λ done. cc
  write-IsConcluded none (some d) s h =
      examine-IsConcluded already_exists (env.create d s.world).0 s (env.create d s.world).1
        (d, inl refl)
        (λ d' e. record {
          named = HasKey-trans _ d d' (laws.creates.answered d d' s.world e) (h d refl).named;
          specified = λ k. k.created d d' s.world e ∙ (h d refl).specified k;
        })
  write-IsConcluded (some _) (some d) s h =
      examine-IsConcluded conflict (env.update d s.world).0 s (env.update d s.world).1 (d, inr refl)
        (λ d' e. record {
          named = HasKey-trans _ d d' (laws.updates.answered d d' s.world e) (h d refl).named;
          specified = λ k. k.updated d d' s.world e ∙ (h d refl).specified k;
        })

  abbrev Ends : State W → Answer × State W → Type 0
  Ends s x = x.0 ≡ inr false → ((x.1 ≡ s) × IsCurrent env pod fc.status s.world) ⊎ IsConcluded s x.1

  proceed-IsConcluded :
      (a : ApiError ⊎ Option PodDiagnosis) (s : State W)
      → ((d : PodDiagnosis) → a ≡ inr (some d) → view env (key_for pod fc.status) s.world ≡ inr d)
      → Ends s (proceed env r pod fc a s)
  unfolding proceed
  proceed-IsConcluded (inl e) s h = λ done. cc
  proceed-IsConcluded (inr found) s h = elim (Bool-cases (is_current found fc.status)) [
    | inl b ↦ rw b (λ done.
        let (d, e, c) = is_current_lem env r laws pod fc found b in
        inl (refl, (d, h d (ap inr e), c)))
    | inr b ↦ rw b (λ done. inr (
        write-IsConcluded found _ s
          (λ d e. record {
            named = owned-Named env r laws pod fc found s.world (λ d e. h d (ap inr e)) d e;
            specified =
                λ k. k.owned pod (object_for pod fc.status found) d e ∙ object_for-spec found;
          })
          done))
  ]

  -- A reconcileContainer that is done changed nothing, with a current object, or came to its end.
  pub reconcile_container-IsConcluded : (s : State W) → Ends s (reconcile_container env r pod fc s)
  unfolding reconcile_container
  reconcile_container-IsConcluded s =
      proceed-IsConcluded (finds (view env (key_for pod fc.status) s.world)) s
        (λ d e. finds_found env r laws pod fc _ d e)

  module _ (origin s : State W) (c : IsConcluded origin s) where
    -- The state that the notification starts from.
    abbrev pub reported : State W
    reported = report env r pod c.result (record {
      world = (env.update_status c.sent c.world).1;
      grouper = origin.grouper;
      effects = origin.effects;
    })

    -- The object that is stored at the end is the one that the status update has answered.
    pub stored_at_end :
        (view env (key_for pod fc.status) s.world ≡ inr c.answered)
        × (c.answered.status ≡ written c.sent.status)
    unfolding report
    stored_at_end =
        let (v, same) = laws.status_stored c.sent c.answered c.world c.updated in
        let k = key_for pod fc.status in
        (
          ap (λ x. view env k x.world) c.ends
              ∙ (view-notify env r laws k pod c.result c.answered reported
                  ∙ (sym (view-key_of env k c.sent _ c.is_for.named) ∙ v)),
          same,
        )
