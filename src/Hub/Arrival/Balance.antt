-- ===== src/Hub/Arrival/Balance.antt =====
-- The diagnoses that a Reconcile counts, against the rows of the hub and the grouper's counts.
use poddoctor.Prelude.{
  ℕ, suc, String, true, List, [], ◌∷◌, inl, inr, ◌≡◌, ◌≢◌, ◌<◌, ◌^◌, ◌+◌, refl, sym, ap, ◌∙◌, subst,
  pos_part, Fits, All, length, arith, Bool-cases,
}
use poddoctor.Api.{PodDiagnosis}
use poddoctor.AlertGroup.{observe}
use poddoctor.AlertGroup.Total.{waiting, told, observe_balances, suppressed_le}
use poddoctor.Diagnosis.{Result}
use poddoctor.Notify.Payload.{payload_of}
use poddoctor.Controller.Pods.{Pod, FailingContainer, find_failing_containers}
use poddoctor.Controller.Reconcile.{
  Env, Reconciler, State, Effect, counted, recorded, report, notify, reconcile_container,
  reconcile_each, reconcile_pod,
}
use poddoctor.Controller.Reconcile.Server.{IsServer}
use poddoctor.Controller.Reconcile.Conclude.{KeepsSpec}
use poddoctor.Controller.Reconcile.Announce.{notify_effects}
use poddoctor.Controller.Reconcile.Groups.{group_key}
use poddoctor.Controller.Reconcile.Each.{and_then_elim, reconcile_pod_elim}
use poddoctor.Controller.Reconcile.Walk.{IsAnswered, reconcile_container_walk}
use poddoctor.Hub.Store.{Diagnosis}
use poddoctor.Hub.Server.{diagnosis_of}
use poddoctor.Hub.Ingest.{arrived}
use poddoctor.Hub.Api.{Server}
use poddoctor.Hub.Fleet.{IsForHub, verdict_of}
use poddoctor.Hub.Log.{KeepsRows}
use poddoctor.Hub.Arrival.{row_announced, notify_arrives}
use poddoctor.Hub.Arrival.Shown.{LeavesTable, container_waits}

-- The diagnoses that rows stand for: each its own, and those that were folded into it.
abbrev pub weight : List Diagnosis → ℕ
weight [] = 0
weight (d ∷ rest) = suc (pos_part d.suppressed_count) + weight rest

-- The diagnoses that the metric counts.
abbrev pub diagnoses : List Effect → ℕ
diagnoses [] = 0
diagnoses (counted _ _ ∷ rest) = suc (diagnoses rest)
diagnoses (recorded _ _ ∷ rest) = diagnoses rest

weight_announced :
    (cluster : String) (n : ℕ) (d : PodDiagnosis) (rest : List Diagnosis)
    → weight (row_announced cluster n d ∷ rest) ≡ suc n + weight rest
unfolding diagnosis_of arrived payload_of
weight_announced cluster n d rest = refl

module _ {W : Type 0} (table : W → List Diagnosis) where
  -- From one state to another, what the rows stand for and what waits has grown by what was counted.
  abbrev pub IsBalanced : State W → State W → Type 0
  IsBalanced s t =
      weight (table t.world) + waiting t.grouper + diagnoses s.effects
      ≡ weight (table s.world) + waiting s.grouper + diagnoses t.effects

module _ {W : Type 0} (env : Env W) (r : Reconciler) (server : Server W) (pod : Pod)
    (keeps : KeepsSpec env) (table : W → List Diagnosis) (rows : KeepsRows server.store table)
    (accepts : (d : Diagnosis) (w : W) → (server.store.insert d w).0 ≡ true)
    (h : IsForHub env r server pod) (ns : pod.namespace ≢ "") (name : pod.name ≢ "") where
  module _ (result : Result) (d : PodDiagnosis) (s : State W) where
    notified_grouper :
        (notify env r pod result d s).grouper
        ≡ (observe s.grouper (group_key pod.namespace result.root_cause) (env.now s.world)).1
    unfolding notify
    notified_grouper =
        elim (Bool-cases
          (observe s.grouper (group_key pod.namespace result.root_cause) (env.now s.world)).0.ok) [
            | inr q ↦ rw (h.targeted, q) refl
            | inl q ↦ rw (h.targeted, q) refl
          ]

    inserted_weight :
        (n : ℕ)
        → weight (table (server.store.insert (row_announced r.cluster_name n d) s.world).1)
          ≡ suc n + weight (table s.world)
    unfolding diagnosis_of arrived payload_of
    inserted_weight n =
        let row = row_announced r.cluster_name n d in
        let (id, at, t) = rows.inserted row s.world (accepts row s.world) in ap weight t

    notified_weight :
        (fc : FailingContainer) (laws : IsServer env)
        → IsAnswered env r laws pod fc d
        → Fits 32 fc.status.restart_count
        → waiting s.grouper < 2 ^ 63
        → weight (table (notify env r pod result d s).world)
          ≡ told (verdict_of env r server pod result d s) + weight (table s.world)
    notified_weight fc laws a restarts small =
        let v = verdict_of env r server pod result d s in
        let le =
          suppressed_le s.grouper (group_key pod.namespace result.root_cause) (env.now s.world) in
        let e =
          notify_arrives env r server pod fc result d s h
            (subst (λ n. Fits 32 n) (sym a.restarts) restarts)
            (record { from = omega arith; to = omega arith }) (a.specified keeps) ns name in
        elim (Bool-cases v.ok) [
          | inl o ↦ rw (e, o) (inserted_weight v.suppressed)
          | inr o ↦ rw (e, o) (omega arith)
        ]

  reported_count :
      (result : Result) (s : State W)
      → diagnoses (report env r pod result s).effects ≡ suc (diagnoses s.effects)
  unfolding report
  reported_count result s = elim (Bool-cases r.has_recorder) [
    | inl b ↦ rw b refl
    | inr b ↦ rw b refl
  ]

  module _ (laws : IsServer env) (leaves : LeavesTable env table) where
    -- Before the announcement, what is weighed is as it was.
    pub record IsBefore (s t : State W) : Type 0 where
      pub grouper : t.grouper ≡ s.grouper
      pub effects : t.effects ≡ s.effects
      pub kept : table t.world ≡ table s.world

    before-IsBalanced : (s t : State W) → IsBefore s t → IsBalanced table s t
    before-IsBalanced s t b = rw (b.grouper, b.effects, b.kept) refl

    announced-IsBalanced :
        (fc : FailingContainer) (result : Result) (d : PodDiagnosis) (s t : State W)
        → IsAnswered env r laws pod fc d
        → Fits 32 fc.status.restart_count
        → waiting s.grouper < 2 ^ 63
        → IsBefore s t
        → IsBalanced table s (notify env r pod result d (report env r pod result t))
    unfolding report
    announced-IsBalanced fc result d s t a restarts small b =
        let u = report env r pod result t in
        let w = notified_weight result d u fc laws a restarts (rw (ap waiting b.grouper) small) in
        let g = ap waiting (notified_grouper result d u) in
        let o =
          observe_balances u.grouper (group_key pod.namespace result.root_cause)
            (env.now u.world) in
        let c =
          ap diagnoses (notify_effects env r laws pod fc result d u) ∙ reported_count result t in
        let same_waiting = ap waiting b.grouper in
        let same_count = ap diagnoses b.effects in let same_weight = ap weight b.kept in omega arith

    container-IsBalanced :
        (fc : FailingContainer) (s : State W)
        → Fits 32 fc.status.restart_count
        → waiting s.grouper < 2 ^ 63
        → IsBalanced table s (reconcile_container env r pod fc s).1
    container-IsBalanced fc s restarts small =
        reconcile_container_walk env r laws pod fc (IsBefore s) (IsBalanced table s)
          (record {
            creates = λ d t n b. record {
              grouper = b.grouper;
              effects = b.effects;
              kept = leaves.created d t.world ∙ b.kept;
            };
            updates = λ d t n b. record {
              grouper = b.grouper;
              effects = b.effects;
              kept = leaves.updated d t.world ∙ b.kept;
            };
            updates_status = λ d t n b. record {
              grouper = b.grouper;
              effects = b.effects;
              kept = leaves.status_updated d t.world ∙ b.kept;
            };
            announces = λ result d t a b. announced-IsBalanced fc result d s t a restarts small b;
            rests = before-IsBalanced s;
          })
          s (record { grouper = refl; effects = refl; kept = refl })

    each-IsBalanced :
        (fcs : List FailingContainer) (s : State W)
        → All (λ fc. Fits 32 fc.status.restart_count) fcs
        → waiting s.grouper + length fcs < 2 ^ 63
        → IsBalanced table s (reconcile_each env r pod fcs s).1
    unfolding reconcile_each
    each-IsBalanced [] s f small = refl
    each-IsBalanced (fc ∷ rest) s (fits, f) small =
        let more = container_waits env r pod laws fc s in
        let here = container-IsBalanced fc s fits (omega arith) in
        let later = each-IsBalanced rest (reconcile_container env r pod fc s).1 f (omega arith) in
        and_then_elim (IsBalanced table s) _ _ here (omega arith)

    -- A Reconcile of the pod, however it ends.
    pub pod-IsBalanced :
        (s : State W)
        → All (λ fc. Fits 32 fc.status.restart_count) (find_failing_containers pod)
        → waiting s.grouper + length (find_failing_containers pod) < 2 ^ 63
        → IsBalanced table s (reconcile_pod env r (inr pod) s).1
    pod-IsBalanced s f small =
        reconcile_pod_elim env r (IsBalanced table s) pod s refl
          (each-IsBalanced (find_failing_containers pod) s f small)
