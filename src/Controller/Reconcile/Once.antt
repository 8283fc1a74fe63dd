-- ===== src/Controller/Reconcile/Once.antt =====
-- One failure episode of one container: the reconciles of the container while it has one restart count,
-- with whatever happens between them that leaves its object alone.
use poddoctor.Prelude.{
  ℕ, suc, ◌+◌, ◌-◌, ◌≤◌, false, true, List, [], ◌∷◌, inl, inr, ◌⊎◌, ◌≡◌, ◌≢◌, refl, sym, ap, ◌∙◌,
  arith, ℤ, Bool-cases,
}
use poddoctor.Api.{PodDiagnosis}
use poddoctor.Diagnosis.{Result}
use poddoctor.Controller.Pods.{Pod, FailingContainer}
use poddoctor.Controller.Reconcile.{
  Env, Reconciler, Effect, counted, recorded, State, Answer, reconcile_container,
}
use poddoctor.Controller.Reconcile.Server.{Key, view, IsServer}
use poddoctor.Controller.Reconcile.Keyed.{key_for, IsCurrent}
use poddoctor.Controller.Reconcile.Episode.{
  reconcile_container-IsCurrent, reconcile_container_rests,
}
use poddoctor.Controller.Reconcile.Quiet.{reconcile_container-IsQuiet}
use poddoctor.Controller.Reconcile.Conclude.{result_of}
use poddoctor.Controller.Reconcile.Announce.{announced, reconcile_container-IsAnnounced}

-- The increments of the metric.
abbrev pub counts : List Effect → ℕ
counts [] = 0
counts (counted cause confidence ∷ effects) = suc (counts effects)
counts (recorded pod text ∷ effects) = counts effects

done_cases : (x : Answer) → (x ≡ inr false) ⊎ (x ≢ inr false)
done_cases (inl e) = inr (λ h. cc)
done_cases (inr true) = inr (λ h. cc)
done_cases (inr false) = inl refl

module _ {W : Type 0} (env : Env W) (r : Reconciler) (key : Key) (restarts : ℤ) where
  -- A reconcile of the container of this object, with this restart count; its waiting reason may change.
  pub record IsAttempt (pod : Pod) (fc : FailingContainer) : Type 0 where
    pub names : key_for pod fc.status ≡ key
    pub counted_restarts : fc.status.restart_count ≡ restarts

  -- The state after a history, with the increments of the metric by the attempts in it.
  pub data History (s : State W) : ℕ → State W → Type 0 where
    begun : History s 0 s
    others :
        {n : ℕ} {t u : State W}
        → History s n t
        → view env key u.world ≡ view env key t.world
        → History s n u
    attempt :
        {n : ℕ} {t : State W}
        → History s n t
        → (pod : Pod) (fc : FailingContainer) → IsAttempt pod fc
        → History s
            (n + (counts (reconcile_container env r pod fc t).1.effects - counts t.effects))
            (reconcile_container env r pod fc t).1

  -- The object carries the restart count.
  abbrev IsDiagnosed : W → Type 0
  IsDiagnosed w =
      (d : PodDiagnosis) × (view env key w ≡ inr d)
      × (d.status.last_diagnosed_restart_count ≡ restarts)

  -- Nothing is counted yet, or one diagnosis is, which is stored.
  abbrev IsOnce : ℕ → State W → Type 0
  IsOnce n t = (n ≡ 0) ⊎ ((n ≡ 1) × IsDiagnosed t.world)

  counts-announced :
      (pod : Pod) (result : Result) (before : List Effect)
      → counts (announced r pod result before) ≡ suc (counts before)
  counts-announced pod result before = elim (Bool-cases r.has_recorder) [
    | inl e ↦ rw e refl
    | inr e ↦ rw e refl
  ]

  module _ (laws : IsServer env) (pod : Pod) (fc : FailingContainer) (a : IsAttempt pod fc)
      (t : State W) where
    abbrev after : State W
    after = (reconcile_container env r pod fc t).1

    current : (w : W) → IsDiagnosed w → IsCurrent env pod fc.status w
    current w (d, v, c) = (d, ap (λ k. view env k w) a.names ∙ v, c ∙ sym a.counted_restarts)

    diagnosed : (w : W) → IsCurrent env pod fc.status w → IsDiagnosed w
    diagnosed w (d, v, c) = (d, ap (λ k. view env k w) (sym a.names) ∙ v, c ∙ a.counted_restarts)

    attempt_rests : IsDiagnosed t.world → after ≡ t
    attempt_rests c =
        ap (λ x. x.1) (reconcile_container_rests env r laws pod fc t (current t.world c))

    attempt_once :
        (counts after.effects ≡ counts t.effects)
        ⊎ ((counts after.effects ≡ suc (counts t.effects)) × IsDiagnosed after.world)
    attempt_once = elim (done_cases (reconcile_container env r pod fc t).0) [
      | inr n ↦ inl (ap counts (reconcile_container-IsQuiet env r pod fc t n).1)
      | inl done ↦ elim (reconcile_container-IsAnnounced env r laws pod fc t done) [
        | inl same ↦ inl (ap (λ u. counts u.effects) same)
        | inr (d, v, e) ↦ inr (
          ap counts e ∙ counts-announced pod (result_of d.status) t.effects,
          diagnosed after.world (reconcile_container-IsCurrent env r laws pod fc t done),
        )
      ]
    ]

    attempt-IsOnce :
        (n : ℕ) → IsOnce n t → IsOnce (n + (counts after.effects - counts t.effects)) after
    attempt-IsOnce n (inr (one, c)) = rw (attempt_rests c) (inr (omega arith, c))
    attempt-IsOnce n (inl none) = elim attempt_once [
      | inl e ↦ inl (omega arith)
      | inr (e, c) ↦ inr (omega arith, c)
    ]

  History-IsOnce : {s t : State W} {n : ℕ} → IsServer env → History s n t → IsOnce n t
  History-IsOnce laws begun = inl refl
  History-IsOnce laws (others h v) = elim (History-IsOnce laws h) [
    | inl none ↦ inl none
    | inr (one, (d, w, c)) ↦ inr (one, (d, v ∙ w, c))
  ]
  History-IsOnce laws (attempt {n} {t} h pod fc a) =
      attempt-IsOnce laws pod fc a t n (History-IsOnce laws h)

  -- Over an API server that keeps objects by key, however often a container with one restart
  -- count is reconciled, whatever calls fail, and whatever happens between the attempts that
  -- leaves its object alone, the attempts count one diagnosis at most; and once one is counted,
  -- the object carries the restart count.
  pub History_lem :
      {s t : State W} {n : ℕ}
      → IsServer env
      → History s n t
      → (n ≤ 1) × (1 ≤ n → IsDiagnosed t.world)
  History_lem laws h = elim (History-IsOnce laws h) [
    | inl none ↦ (omega arith, λ p. absurd (omega arith))
    | inr (one, d) ↦ (omega arith, λ p. d)
  ]
