-- ===== src/Controller/Reconcile/Lost.antt =====
-- A container that failed without a restart: its first diagnosis is stored in two writes, and the
-- second may fail.
use mathlib.Core.Sum.{inr-injective}
use poddoctor.Prelude.{false, Option, none, some, inl, inr, ◌⊎◌, ◌≡◌, ◌≢◌, refl, sym, ap, ◌∙◌, pos}
use poddoctor.Api.{PodDiagnosis, zero_status}
use poddoctor.Diagnosis.{Result}
use poddoctor.Controller.Pods.{Pod, FailingContainer}
use poddoctor.Controller.Evidence.{gather_evidence}
use poddoctor.Controller.Reconcile.{
  ApiError, not_found, already_exists, Env, Reconciler, State, Answer, conclusion, diagnosed,
  is_current, finds, conclude, examine, write, proceed, reconcile_container,
}
use poddoctor.Controller.Reconcile.Server.{HasKey, view, IsServer, HasKey-trans, view-key_of}
use poddoctor.Controller.Reconcile.Keyed.{key_for, owned-Named}
use poddoctor.Controller.Reconcile.Episode.{reconcile_container_rests}

module _ {W : Type 0} (env : Env W) (r : Reconciler) (laws : IsServer env) (pod : Pod)
    (fc : FailingContainer) where
  abbrev Stored : W → ApiError ⊎ PodDiagnosis
  Stored w = view env (key_for pod fc.status) w

  -- What is stored under the key has the zero status.
  abbrev Blank : ApiError ⊎ PodDiagnosis → Type 0
  Blank a = (d : PodDiagnosis) → a ≡ inr d → d.status ≡ zero_status

  abbrev BlankUnless : Answer × State W → Type 0
  BlankUnless x = x.0 ≢ inr false → Blank (Stored x.1.world)

  conclude-Blank :
      (result : Result) (a : ApiError ⊎ PodDiagnosis) (s : State W)
      → ((e : ApiError) → a ≡ inl e → Blank (Stored s.world))
      → BlankUnless (conclude env r pod result a s)
  unfolding conclude
  conclude-Blank result (inl e) s h n = h e refl
  conclude-Blank result (inr d) s h n = absurd (n refl)

  examine-Blank :
      (expected : ApiError) (a : ApiError ⊎ PodDiagnosis) (s : State W)
      → ((d : PodDiagnosis) → a ≡ inr d → HasKey (key_for pod fc.status) d)
      → Blank (Stored s.world)
      → BlankUnless (examine env r pod fc expected a s)
  unfolding examine diagnosed
  examine-Blank expected (inl e) s h b = λ n. b
  examine-Blank expected (inr d) s h b =
      let ev = gather_evidence (env.reads s.world) r.settings pod fc.status in
      let result = conclusion ev fc in
      let sent = diagnosed d ev result fc.status (env.now s.world) in
      let same = view-key_of env (key_for pod fc.status) sent in
      conclude-Blank result (env.update_status sent s.world).0
        (record s { world = (env.update_status sent s.world).1 })
        (λ e q d' v. b d' (
          sym (same _ (h d refl))
          ∙ (sym (laws.status_kept sent e s.world q) ∙ (same _ (h d refl) ∙ v))))

  create-Blank :
      (d : PodDiagnosis) (w : W)
      → HasKey (key_for pod fc.status) d
      → Stored w ≡ inl not_found
      → (a : ApiError ⊎ PodDiagnosis) → (env.create d w).0 ≡ a
      → Blank (Stored (env.create d w).1)
  create-Blank d w h v (inl e) q d' stored =
      let same = view-key_of env (key_for pod fc.status) d in
      let absent : inl not_found ≡ inr d' =
        sym v ∙ (sym (same w h) ∙ (sym (laws.not_created d e w q) ∙ (same _ h ∙ stored))) in
      cc absent
  create-Blank d w h v (inr c) q d' stored =
      let (kept, zero) = laws.created d c w q in
      let same : inr c ≡ inr d' =
        sym kept ∙ (view-key_of env (key_for pod fc.status) d _ h ∙ stored) in
      ap (λ x. x.status) (sym (inr-injective _ _ same)) ∙ zero

  write-Blank :
      (owned : Option PodDiagnosis) (s : State W)
      → Stored s.world ≡ inl not_found
      → ((d : PodDiagnosis) → owned ≡ some d → HasKey (key_for pod fc.status) d)
      → BlankUnless (write env r pod fc none owned s)
  unfolding write
  write-Blank none s v h = λ n d e. cc
  write-Blank (some d) s v h =
      examine-Blank already_exists (env.create d s.world).0 (record s { world = _ })
        (λ d' e. HasKey-trans _ d d' (laws.creates.answered d d' s.world e) (h d refl))
        (create-Blank d s.world (h d refl) v (env.create d s.world).0 refl)

  started-Blank :
      (s : State W)
      → Stored s.world ≡ inl not_found
      → BlankUnless (reconcile_container env r pod fc s)
  unfolding reconcile_container proceed finds is_current
  started-Blank s v =
      rw v (write-Blank _ s v (owned-Named env r laws pod fc none s.world (λ d e. cc)))

  -- When a container with restart count 0 has no PodDiagnosis yet and its reconcileContainer does
  -- not finish but leaves an object stored, the next reconcileContainer takes the failure for
  -- diagnosed and does nothing.
  pub reconcile_container_loses :
      (s : State W)
      → Stored s.world ≡ inl not_found
      → fc.status.restart_count ≡ pos 0
      → (reconcile_container env r pod fc s).0 ≢ inr false
      → (t : State W) (d : PodDiagnosis) → t ≡ (reconcile_container env r pod fc s).1
      → Stored t.world ≡ inr d
      → reconcile_container env r pod fc t ≡ (inr false, t)
  reconcile_container_loses s v z n t d e k = reconcile_container_rests env r laws pod fc t (
    d,
    k,
    ap (λ st. st.last_diagnosed_restart_count)
          (started-Blank s v n d (ap (λ x. Stored x.world) (sym e) ∙ k))
        ∙ sym z,
  )
