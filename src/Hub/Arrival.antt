-- ===== src/Hub/Arrival.antt =====
-- A whole reconcileContainer whose namespace has a hub as its webhook, up to the hub's row; Pass has all
-- failing containers of a pod, Shown the rows that show their diagnoses, Balance and Life their number.
mod Joined
pub mod Shown
pub mod Pass
pub mod Balance
pub mod Life
mod Tests
use poddoctor.Prelude.{
  Fits, String, false, ℕ, ◌≡◌, ◌≢◌, ◌⊎◌, inl, inr, ap, sym, ◌∙◌, subst, pos, Bool-cases,
  if◌then◌else◌,
}
use poddoctor.Api.{PodDiagnosis}
use poddoctor.AlertGroup.{Verdict, observe}
use poddoctor.Diagnosis.{Result}
use poddoctor.Notify.Payload.{payload_of}
use poddoctor.Controller.Pods.{Pod, FailingContainer}
use poddoctor.Controller.Reconcile.{
  Env, Reconciler, State, spec_of, report, notify, reconcile_container,
}
use poddoctor.Controller.Reconcile.Server.{view, IsServer}
use poddoctor.Controller.Reconcile.Keyed.{key_for}
use poddoctor.Controller.Reconcile.Conclude.{
  KeepsSpec, IsWritten, IsConcluded, reported, stored_at_end, reconcile_container-IsConcluded,
}
use poddoctor.Controller.Reconcile.Groups.{group_key}
use poddoctor.Hub.Store.{Diagnosis}
use poddoctor.Hub.Api.{Server}
use poddoctor.Hub.Ingest.{row_of}
use poddoctor.Hub.Fleet.{IsForHub, verdict_of, notify-inserts, notify_folds}

-- The row of a diagnosis that a cluster announces after some folded occurrences.
abbrev pub row_announced : (cluster : String) (suppressed : ℕ) → PodDiagnosis → Diagnosis
row_announced cluster suppressed d =
    row_of (record { diag = d; cluster = cluster; suppressed_count = pos suppressed })

module _ {W : Type 0} (env : Env W) (r : Reconciler) (server : Server W) (pod : Pod)
    (fc : FailingContainer) where
  -- What the grouper of a state says at the time of a world of the container's stored diagnosis.
  abbrev pub verdict_on : State W → PodDiagnosis → W → Verdict
  verdict_on s d w = (observe s.grouper (group_key pod.namespace d.status.root_cause) (env.now w)).0

  -- A state has become another one, in which a diagnosis of the container is stored and has arrived.
  pub record IsArrived (s s' : State W) : Type 0 where
    pub sent : PodDiagnosis
    pub stored : PodDiagnosis
    pub examined : W
    pub begun : IsWritten env s.world examined
    pub written : W
    pub updated : env.update_status sent examined ≡ (inr stored, written)
    pub found : view env (key_for pod fc.status) s'.world ≡ inr stored
    pub specified : stored.spec ≡ spec_of pod fc.status
    pub restarts : stored.status.restart_count ≡ fc.status.restart_count
    pub arrives : s'.world ≡ (
        let verdict = verdict_on s stored written in
        if verdict.ok
        then (server.store.insert
            (row_announced r.cluster_name verdict.suppressed stored)
            written).1
        else written)

  -- The notification of a stored diagnosis, whether the grouper folds it or not.
  pub notify_arrives :
      (result : Result) (d : PodDiagnosis) (s : State W)
      → IsForHub env r server pod
      → Fits 32 d.status.restart_count
      → Fits 64 (pos (verdict_of env r server pod result d s).suppressed)
      → d.spec ≡ spec_of pod fc.status
      → pod.namespace ≢ ""
      → pod.name ≢ ""
      → (notify env r pod result d s).world ≡ (
          let verdict = verdict_of env r server pod result d s in
          if verdict.ok
          then (server.store.insert (row_announced r.cluster_name verdict.suppressed d) s.world).1
          else s.world)
  unfolding payload_of spec_of
  notify_arrives result d s h restarts count specified ns name =
      elim (Bool-cases (verdict_of env r server pod result d s).ok) [
        | inl v ↦ rw v (
            notify-inserts env r server pod result d s h v
              (record { count_fits = count; restarts_fits = restarts })
              (λ e. ns (sym (ap (λ x. x.pod_namespace) specified) ∙ e))
              (λ e. name (sym (ap (λ x. x.pod_name) specified) ∙ e)))
        | inr v ↦ rw v (notify_folds env r server pod result d s h.targeted v)
      ]

  module _ (laws : IsServer env) (keeps : KeepsSpec env) where
    module _ (s s' : State W) (c : IsConcluded env r laws pod fc s s') where
      abbrev done : State W
      done = reported env r laws pod fc s s' c

      same_cause : c.result.root_cause ≡ c.answered.status.root_cause
      same_cause =
          ap (λ x. x.root_cause) (sym c.concludes)
          ∙ ap (λ x. x.root_cause) (sym (stored_at_end env r laws pod fc s s' c).1)

      same_spec : c.answered.spec ≡ spec_of pod fc.status
      same_spec =
          keeps.status_updated c.sent c.answered c.world c.updated ∙ c.is_for.specified keeps

      same_restarts : c.answered.status.restart_count ≡ fc.status.restart_count
      same_restarts =
          ap (λ x. x.restart_count) (stored_at_end env r laws pod fc s s' c).1 ∙ c.restarts

      same_verdict :
          verdict_of env r server pod c.result c.answered done ≡ verdict_on s c.answered done.world
      unfolding report
      same_verdict =
          ap (λ x. (observe s.grouper (group_key pod.namespace x) (env.now done.world)).0)
            same_cause

      concluded-IsArrived :
          IsForHub env r server pod
          → Fits 32 fc.status.restart_count
          → ((key : String) (now : ℕ) → Fits 64 (pos (observe s.grouper key now).0.suppressed))
          → pod.namespace ≢ ""
          → pod.name ≢ ""
          → IsArrived s s'
      unfolding report
      concluded-IsArrived h restarts count ns name = record {
        sent = c.sent;
        stored = c.answered;
        examined = c.world;
        begun = c.written;
        written = (env.update_status c.sent c.world).1;
        updated = ap (λ a. (a, (env.update_status c.sent c.world).1)) c.updated;
        found = (stored_at_end env r laws pod fc s s' c).0;
        specified = same_spec;
        restarts = same_restarts;
        arrives =
            ap (λ x. x.world) c.ends
            ∙ subst
                (λ v. (notify env r pod c.result c.answered done).world ≡ (
                  if v.ok
                  then (server.store.insert (row_announced r.cluster_name v.suppressed c.answered)
                      done.world).1
                  else done.world))
                same_verdict
                (notify_arrives c.result c.answered done h
                  (subst (λ n. Fits 32 n) (sym same_restarts) restarts) (count _ _) same_spec ns
                  name);
      }

    -- Where a pod with a name and a namespace has a hub's /ingest as the target of its namespace,
    -- with the hub's token and a format that is not Slack, reached over a network that delivers
    -- requests as they are, over an API server that keeps objects by key, and their
    -- specifications, with a restart count of the container that fits an int32 and counts of the
    -- grouper that fit an int: a reconcileContainer that is done, without an error or a requeue,
    -- either changed nothing, or stored a diagnosis with the container's specification and
    -- restart count, and then left the world as the insertion of the row of just this diagnosis
    -- does, with the operator's cluster name and the number of folded occurrences, or as it was
    -- if the grouper folds it.
    pub reconcile_container-IsArrived :
        (s : State W)
        → IsForHub env r server pod
        → Fits 32 fc.status.restart_count
        → ((key : String) (now : ℕ) → Fits 64 (pos (observe s.grouper key now).0.suppressed))
        → pod.namespace ≢ ""
        → pod.name ≢ ""
        → (reconcile_container env r pod fc s).0 ≡ inr false
        → ((reconcile_container env r pod fc s).1 ≡ s)
          ⊎ IsArrived s (reconcile_container env r pod fc s).1
    reconcile_container-IsArrived s h restarts count ns name done =
        elim (reconcile_container-IsConcluded env r laws pod fc s done) [
          | inl (e, _) ↦ inl e
          | inr c ↦ inr (concluded-IsArrived s _ c h restarts count ns name)
        ]
