-- ===== src/Controller/Reconcile/Schema/Container.antt =====
-- What `reconcileContainer` leaves stored has the schema of a PodDiagnosis.
use poddoctor.Prelude.{
  ◌*◌, String, Option, none, some, inl, inr, ◌⊎◌, ◌≡◌, refl, sym, ap, ◌∙◌, subst, Bool-cases, All,
  ◌==◌, eq_iff,
}
use poddoctor.Text.Laws.{ne_of_test}
use poddoctor.Api.{PodDiagnosisStatus, zero_status, PodDiagnosis}
use poddoctor.Diagnosis.{Result}
use poddoctor.Controller.Pods.{Pod, FailingContainer}
use poddoctor.Controller.Evidence.{max_len, gather_evidence}
use poddoctor.Controller.Reconcile.{
  ApiError, already_exists, conflict, Env, Reconciler, State, conclusion, diagnosed, is_current,
  finds, report, conclude, examine, write, proceed, reconcile_container,
}
use poddoctor.Controller.Reconcile.Server.{
  Key, HasKey, key_of, IsOther, view, IsServer, HasKey-trans, view-key_of,
}
use poddoctor.Controller.Reconcile.Keyed.{key_for, view-notify, owned-Named, finds_found}
use poddoctor.Controller.Reconcile.Others.{reconcile_container-Keeps}
use poddoctor.Controller.Reconcile.Schema.{
  IsComplete, HasInts, AreCounted, diagnosed-IsComplete, written-IsComplete,
}

-- The stored status under a key, where there is an object.
abbrev pub status_in : ApiError ⊎ PodDiagnosis → Option PodDiagnosisStatus
status_in (inl e) = none
status_in (inr d) = some d.status

-- The status is a subresource: an update of the object leaves it.
pub record KeepsStatus {W : Type 0} (env : Env W) : Type 0 where
  pub kept :
      (d : PodDiagnosis) (w : W)
      → status_in (view env (key_of d) (env.update d w).1) ≡ status_in (view env (key_of d) w)

-- A status that was never written, or a complete one, with a log of 4000 bytes, each of which may have
-- become three.
abbrev pub HasForm : Option PodDiagnosisStatus → Type 0
HasForm none = Unit
HasForm (some st) = (st ≡ zero_status) ⊎ IsComplete (3 * max_len) st

abbrev pub HasSchema : {W : Type 0} → Env W → W → Type 0
HasSchema env w = (k : Key) → HasForm (status_in (view env k w))

-- What Go's types say of the pod that is read, and of the events that are found.
abbrev pub PodHasInts : ApiError ⊎ Pod → Type 0
PodHasInts (inl e) = Unit
PodHasInts (inr pod) = All HasInts pod.init_statuses × All HasInts pod.statuses

pub record IsTyped {W : Type 0} (env : Env W) : Type 0 where
  pub pods : (namespace name : String) (w : W) → PodHasInts (env.get_pod namespace name w)
  pub events : (pod : Pod) (w : W) → AreCounted (env.reads w) ((env.reads w).search_events pod)

-- Two keys are one or differ in a part.
key_cases : (k l : Key) → (k ≡ l) ⊎ IsOther k l
key_cases k l = elim (Bool-cases (k.namespace == l.namespace)) [
  | inr e ↦ inr (inl (ne_of_test k.namespace l.namespace e))
  | inl e ↦ elim (Bool-cases (k.name == l.name)) [
    | inr f ↦ inr (inr (ne_of_test k.name l.name f))
    | inl f ↦ inl (cc ((eq_iff k.namespace l.namespace).0 e, (eq_iff k.name l.name).0 f))
  ]
]

module _ {W : Type 0} (env : Env W) (r : Reconciler) (laws : IsServer env) (keeps : KeepsStatus env)
    (typed : IsTyped env) (pod : Pod) where
  module _ (fc : FailingContainer) (ints : HasInts fc.status) where
    abbrev key : Key
    key = key_for pod fc.status

    -- The container's object has the schema.
    abbrev Stored : W → Type 0
    Stored w = HasForm (status_in (view env key w))

    Stored-same : (w w' : W) → view env key w' ≡ view env key w → Stored w → Stored w'
    Stored-same w w' e h = subst (λ a. HasForm (status_in a)) (sym e) h

    -- A call on an object of that key.
    named_view : (d : PodDiagnosis) (w : W) → HasKey key d → view env (key_of d) w ≡ view env key w
    named_view d w n = view-key_of env key d w n

    conclude-Stored :
        (result : Result) (sent : PodDiagnosis) (s : State W)
        → HasKey key sent
        → IsComplete max_len sent.status
        → Stored s.world
        → (a : ApiError ⊎ PodDiagnosis) → (env.update_status sent s.world).0 ≡ a
        → Stored
            (conclude env r pod result a
              (record s { world = (env.update_status sent s.world).1 })).1.world
    unfolding conclude report
    conclude-Stored result sent s n c h (inl e) q =
        Stored-same s.world _
          (sym (named_view sent _ n) ∙ laws.status_kept sent e s.world q ∙ named_view sent _ n) h
    conclude-Stored result sent s n c h (inr d) q =
        let (v, same) = laws.status_stored sent d s.world q in
        let after : State W = record s { world = (env.update_status sent s.world).1 } in
        Stored-same after.world _
          (view-notify env r laws key pod result d (report env r pod result after))
          (subst (λ a. HasForm (status_in a)) (sym v ∙ named_view sent _ n)
            (inr (
              subst (IsComplete (3 * max_len)) (sym same)
                (written-IsComplete max_len sent.status c))))

    examine-Stored :
        (expected : ApiError) (a : ApiError ⊎ PodDiagnosis) (s : State W)
        → ((d : PodDiagnosis) → a ≡ inr d → HasKey key d)
        → Stored s.world
        → Stored (examine env r pod fc expected a s).1.world
    unfolding examine diagnosed
    examine-Stored expected (inl e) s n h = h
    examine-Stored expected (inr d) s n h =
        let ev = gather_evidence (env.reads s.world) r.settings pod fc.status in
        let result = conclusion ev fc in
        let sent = diagnosed d ev result fc.status (env.now s.world) in
        conclude-Stored result sent s (n d refl)
          (diagnosed-IsComplete (env.reads s.world) r.settings pod fc d (env.now s.world) ints
            (typed.events pod s.world))
          h _ refl

    created-Stored :
        (d : PodDiagnosis) (w : W)
        → HasKey key d
        → Stored w
        → (a : ApiError ⊎ PodDiagnosis) → (env.create d w).0 ≡ a
        → Stored (env.create d w).1
    created-Stored d w n h (inl e) q =
        Stored-same w _ (sym (named_view d _ n) ∙ laws.not_created d e w q ∙ named_view d _ n) h
    created-Stored d w n h (inr d') q =
        let (v, z) = laws.created d d' w q in
        subst (λ a. HasForm (status_in a)) (sym v ∙ named_view d _ n) (inl z)

    updated-Stored :
        (d : PodDiagnosis) (w : W) → HasKey key d → Stored w → Stored (env.update d w).1
    updated-Stored d w n h =
        subst HasForm
          (ap status_in (sym (named_view d w n))
            ∙ sym (keeps.kept d w)
            ∙ ap status_in (named_view d (env.update d w).1 n))
          h

    write-Stored :
        (found owned : Option PodDiagnosis) (s : State W)
        → ((d : PodDiagnosis) → owned ≡ some d → HasKey key d)
        → Stored s.world
        → Stored (write env r pod fc found owned s).1.world
    unfolding write
    write-Stored found none s n h = h
    write-Stored none (some d) s n h =
        examine-Stored already_exists _ (record s { world = _ })
          (λ d' e. HasKey-trans _ d d' (laws.creates.answered d d' s.world e) (n d refl))
          (created-Stored d s.world (n d refl) h _ refl)
    write-Stored (some _) (some d) s n h =
        examine-Stored conflict _ (record s { world = _ })
          (λ d' e. HasKey-trans _ d d' (laws.updates.answered d d' s.world e) (n d refl))
          (updated-Stored d s.world (n d refl) h)

    proceed-Stored :
        (a : ApiError ⊎ Option PodDiagnosis) (s : State W)
        → ((d : PodDiagnosis) → a ≡ inr (some d) → view env key s.world ≡ inr d)
        → Stored s.world
        → Stored (proceed env r pod fc a s).1.world
    unfolding proceed
    proceed-Stored (inl e) s n h = h
    proceed-Stored (inr found) s n h = elim (Bool-cases (is_current found fc.status)) [
      | inl b ↦ rw b h
      | inr b ↦ rw b (
          write-Stored found _ s
            (owned-Named env r laws pod fc found s.world (λ d e. n d (ap inr e))) h)
    ]

    pub container-HasSchema :
        (s : State W)
        → HasSchema env s.world
        → HasSchema env (reconcile_container env r pod fc s).1.world
    unfolding reconcile_container
    container-HasSchema s h k =
        let after = (reconcile_container env r pod fc s).1.world in
        elim (key_cases k key) [
          | inl e ↦
              subst (λ l. HasForm (status_in (view env l after))) (sym e)
                (proceed-Stored (finds (view env key s.world)) s
                  (λ d q. finds_found env r laws pod fc _ d q) (h key))
          | inr a ↦
              subst (λ v. HasForm (status_in v))
                (sym (reconcile_container-Keeps env r laws pod fc k a s)) (h k)
        ]
