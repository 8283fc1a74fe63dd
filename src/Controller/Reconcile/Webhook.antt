-- ===== src/Controller/Reconcile/Webhook.antt =====
-- `reconcileContainer` with two webhooks, of which one may fail.
mod Tests
use Prim.Native.String.{◌++◌}
use poddoctor.Prelude.{Option, none, some, inl, inr, ◌⊎◌, ◌≡◌, refl, sym, ◌∙◌, Bool-cases}
use poddoctor.Api.{PodDiagnosis, cause_name}
use poddoctor.Diagnosis.{Result}
use poddoctor.AlertGroup.{observe}
use poddoctor.Notify.Router.{route}
use poddoctor.Notify.Send.{HttpClient, Request}
use poddoctor.Controller.Pods.{Pod, FailingContainer}
use poddoctor.Controller.Reconcile.{
  ApiError, Env, Reconciler, State, Answer, is_current, report, notify, conclude, examine, write,
  proceed, reconcile_container,
}
use poddoctor.Controller.Reconcile.Server.{Key, view, IsServer}
use poddoctor.Controller.Reconcile.Keyed.{view-notify}

-- The same API server with another webhook.
abbrev pub over : {W : Type 0} → Env W → HttpClient W → Env W
over env client = record env { client = client }

module _ {W : Type 0} (env : Env W) (client : HttpClient W) (r : Reconciler) (laws : IsServer env)
    (posted : (k : Key) (q : Request) (w : W) → view env k (client.post q w).1 ≡ view env k w)
    (pod : Pod) where
  over-IsServer : IsServer (over env client)
  over-IsServer = record {
    found = laws.found;
    owned = laws.owned;
    creates = record { answered = laws.creates.answered; others = laws.creates.others };
    updates = record { answered = laws.updates.answered; others = laws.updates.others };
    updates_status = record {
      answered = laws.updates_status.answered;
      others = laws.updates_status.others;
    };
    created = laws.created;
    status_stored = laws.status_stored;
    not_created = laws.not_created;
    status_kept = laws.status_kept;
    posted = posted;
  }

  -- Two runs that a user of the cluster cannot tell apart: the same answer, groups, metrics and events,
  -- and the same stored objects.
  pub record Agree (x y : Answer × State W) : Type 0 where
    pub answer : x.0 ≡ y.0
    pub grouper : x.1.grouper ≡ y.1.grouper
    pub effects : x.1.effects ≡ y.1.effects
    pub objects : (k : Key) → view env k x.1.world ≡ view env k y.1.world

  Agree-refl : (x : Answer × State W) → Agree x x
  Agree-refl x = record { answer = refl; grouper = refl; effects = refl; objects = λ k. refl }

  notified :
      (result : Result) (d : PodDiagnosis) (s : State W)
      → let x = notify env r pod result d s in
        let y = notify (over env client) r pod result d s in
        (x.grouper ≡ y.grouper) × (x.effects ≡ y.effects)
  unfolding notify
  notified result d s = elim (Bool-cases (route r.notify_router pod.namespace).ok) [
    | inr e ↦ rw e (refl, refl)
    | inl e ↦
        elim (Bool-cases
          (observe s.grouper (pod.namespace ++ ("/" ++ cause_name result.root_cause))
            (env.now s.world)).0.ok) [
              | inr q ↦ rw (e, q) (refl, refl)
              | inl q ↦ rw (e, q) (refl, refl)
            ]
  ]

  conclude-Agree :
      (result : Result) (a : ApiError ⊎ PodDiagnosis) (s : State W)
      → Agree (conclude env r pod result a s) (conclude (over env client) r pod result a s)
  unfolding conclude report
  conclude-Agree result (inl e) s = Agree-refl _
  conclude-Agree result (inr d) s =
      let reported = report env r pod result s in
      let (same_groups, same_effects) = notified result d reported in
      record {
        answer = refl;
        grouper = same_groups;
        effects = same_effects;
        objects = λ k.
            view-notify env r laws k pod result d reported
            ∙ sym (view-notify (over env client) r over-IsServer k pod result d reported);
      }

  examine-Agree :
      (fc : FailingContainer) (expected : ApiError) (a : ApiError ⊎ PodDiagnosis) (s : State W)
      → Agree (examine env r pod fc expected a s) (examine (over env client) r pod fc expected a s)
  unfolding examine
  examine-Agree fc expected (inl e) s = Agree-refl _
  examine-Agree fc expected (inr d) s = conclude-Agree _ _ _

  write-Agree :
      (fc : FailingContainer) (found owned : Option PodDiagnosis) (s : State W)
      → Agree (write env r pod fc found owned s) (write (over env client) r pod fc found owned s)
  unfolding write
  write-Agree fc found none s = Agree-refl _
  write-Agree fc none (some d) s = examine-Agree fc _ _ _
  write-Agree fc (some _) (some d) s = examine-Agree fc _ _ _

  proceed-Agree :
      (fc : FailingContainer) (a : ApiError ⊎ Option PodDiagnosis) (s : State W)
      → Agree (proceed env r pod fc a s) (proceed (over env client) r pod fc a s)
  unfolding proceed
  proceed-Agree fc (inl e) s = Agree-refl _
  proceed-Agree fc (inr found) s = elim (Bool-cases (is_current found fc.status)) [
    | inl b ↦ rw b (Agree-refl _)
    | inr b ↦ rw b (write-Agree fc found _ s)
  ]

  -- Over an API server that keeps objects by key, and with two webhooks that both leave the
  -- objects alone, whatever they answer: a reconcileContainer answers the same with the one as
  -- with the other, and leaves the same alert groups, the same metrics and events, and the same
  -- stored objects.
  pub reconcile_container-Agree :
      (fc : FailingContainer) (s : State W)
      → Agree
          (reconcile_container env r pod fc s)
          (reconcile_container (over env client) r pod fc s)
  unfolding reconcile_container
  reconcile_container-Agree fc s = proceed-Agree fc _ s
