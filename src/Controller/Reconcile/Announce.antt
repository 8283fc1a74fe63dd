-- ===== src/Controller/Reconcile/Announce.antt =====
-- What a finished reconcile of a container counts and records, against what it stored.
use Prim.Native.String.{◌++◌}
use poddoctor.Prelude.{
  String, false, List, ◌∷◌, inl, inr, ◌⊎◌, ◌≡◌, sym, ap, ◌∙◌, Bool-cases, if◌then◌else◌,
}
use poddoctor.Api.{cause_name, confidence_name, PodDiagnosis}
use poddoctor.Diagnosis.{Result}
use poddoctor.AlertGroup.{observe}
use poddoctor.Notify.Router.{route}
use poddoctor.Controller.Pods.{Pod, FailingContainer}
use poddoctor.Controller.Reconcile.{
  Env, Reconciler, State, Effect, counted, recorded, event_text, report, notify,
  reconcile_container,
}
use poddoctor.Controller.Reconcile.Conclude.{
  result_of, IsConcluded, reconcile_container-IsConcluded, reported, stored_at_end,
}
use poddoctor.Controller.Reconcile.Server.{view, IsServer}
use poddoctor.Controller.Reconcile.Keyed.{key_for}

-- The text of the event: cause, confidence, summary and recommendation.
abbrev pub announcement : Result → String
announcement result =
    "["
    ++ (cause_name result.root_cause
        ++ ("/"
            ++ (confidence_name result.confidence
                ++ ("] " ++ (result.summary ++ (" " ++ result.recommendation))))))

-- The effects of announcing a diagnosis, on top of earlier ones.
abbrev pub announced : Reconciler → Pod → Result → List Effect → List Effect
announced r pod result before =
    if r.has_recorder
    then recorded pod (announcement result) ∷ (counted result.root_cause result.confidence ∷ before)
    else counted result.root_cause result.confidence ∷ before

module _ {W : Type 0} (env : Env W) (r : Reconciler) (laws : IsServer env) (pod : Pod)
    (fc : FailingContainer) where
  -- The stored diagnosis is the one that was announced.
  abbrev pub IsAnnounced : List Effect → State W → Type 0
  IsAnnounced before s =
      (d : PodDiagnosis) × (view env (key_for pod fc.status) s.world ≡ inr d)
      × (s.effects ≡ announced r pod (result_of d.status) before)

  pub notify_effects :
      (result : Result) (d : PodDiagnosis) (s : State W)
      → (notify env r pod result d s).effects ≡ s.effects
  unfolding notify
  notify_effects result d s = elim (Bool-cases (route r.notify_router pod.namespace).ok) [
    | inr e ↦ rw e
    | inl e ↦
        elim (Bool-cases
          (observe s.grouper (pod.namespace ++ ("/" ++ cause_name result.root_cause))
            (env.now s.world)).0.ok) [ inr q ↦ rw (e, q) | inl q ↦ rw (e, q) ]
  ]

  concluded-IsAnnounced :
      (s s' : State W) → IsConcluded env r laws pod fc s s' → IsAnnounced s.effects s'
  unfolding report event_text
  concluded-IsAnnounced s s' c =
      let (v, same) = stored_at_end env r laws pod fc s s' c in
      let done = reported env r laws pod fc s s' c in
      (
        c.answered,
        v,
        ap (λ x. x.effects) c.ends
            ∙ (notify_effects c.result c.answered done
                ∙ ap (λ x. announced r pod x s.effects) (sym (ap result_of same ∙ c.concludes))),
      )

  -- A reconcileContainer that is done, without an error or a requeue, either changed nothing, or
  -- counted one diagnosis and, with a recorder, recorded one event, whose text has the cause, the
  -- confidence, the summary and the recommendation of the object that is now stored.
  pub reconcile_container-IsAnnounced :
      (s : State W)
      → (reconcile_container env r pod fc s).0 ≡ inr false
      → ((reconcile_container env r pod fc s).1 ≡ s)
        ⊎ IsAnnounced s.effects (reconcile_container env r pod fc s).1
  reconcile_container-IsAnnounced s done =
      elim (reconcile_container-IsConcluded env r laws pod fc s done) [
        | inl (e, _) ↦ inl e
        | inr c ↦ inr (concluded-IsAnnounced s _ c)
      ]
