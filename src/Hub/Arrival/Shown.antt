-- ===== src/Hub/Arrival/Shown.antt =====
-- The rows that show the stored diagnoses of failing containers, and what a reconcileContainer does to
-- the counts of the grouper.
use mathlib.Core.List.{◌++◌ as append}
use poddoctor.Prelude.{
  ◌≤◌, ap, refl, ℕ, suc, List, [], ◌∷◌, inl, inr, ◌≡◌, ◌∙◌, ℤ, arith, Bool-cases,
}
use poddoctor.Api.{Time, PodDiagnosis}
use poddoctor.AlertGroup.{observe}
use poddoctor.AlertGroup.Total.{waiting, observe_balances}
use poddoctor.Controller.Reconcile.Walk.{reconcile_container_walk}
use poddoctor.Diagnosis.{Result}
use poddoctor.Notify.Router.{route}
use poddoctor.Controller.Pods.{Pod, FailingContainer}
use poddoctor.Controller.Reconcile.{
  Env, Reconciler, State, spec_of, report, notify, reconcile_container,
}
use poddoctor.Controller.Reconcile.Server.{view, IsServer}
use poddoctor.Controller.Reconcile.Keyed.{key_for}
use poddoctor.Controller.Reconcile.Groups.{group_key}
use poddoctor.Hub.Store.{Diagnosis}
use poddoctor.Hub.Arrival.{row_announced}

-- The API server's writes leave the hub's table.
pub record LeavesTable {W : Type 0} (env : Env W) (table : W → List Diagnosis) : Type 0 where
  pub created : (d : PodDiagnosis) (w : W) → table (env.create d w).1 ≡ table w
  pub updated : (d : PodDiagnosis) (w : W) → table (env.update d w).1 ≡ table w
  pub status_updated : (d : PodDiagnosis) (w : W) → table (env.update_status d w).1 ≡ table w

module _ {W : Type 0} (env : Env W) (r : Reconciler) (pod : Pod) where
  -- The rows that one failing container brings: none, or one, which shows the diagnosis that is stored
  -- for the container, with its specification and its restart count.
  abbrev pub IsShown : W → FailingContainer → List Diagnosis → Type 0
  IsShown w fc [] = Unit
  IsShown w fc (row ∷ []) =
      (d : PodDiagnosis) × (view env (key_for pod fc.status) w ≡ inr d)
      × (d.spec ≡ spec_of pod fc.status)
      × (d.status.restart_count ≡ fc.status.restart_count)
      × (n : ℕ) × (id : ℤ) × (at : Time) × (row
          ≡ record (row_announced r.cluster_name n d) { id = id; received_at = at })
  IsShown w fc (_ ∷ _ ∷ _) = ⊥

  -- The rows that several bring, newest first.
  abbrev pub AreShown : W → List FailingContainer → List Diagnosis → Type 0
  AreShown w [] rows = rows ≡ []
  AreShown w (fc ∷ rest) rows =
      (later : List Diagnosis) × (mine : List Diagnosis) × (rows ≡ append later mine)
      × IsShown w fc mine
      × AreShown w rest later

  -- What a list of containers has brought to a table between two states.
  abbrev pub BringsAll : (W → List Diagnosis) → State W → List FailingContainer → State W → Type 0
  BringsAll table s fcs s' =
      (new : List Diagnosis) × AreShown s'.world fcs new
      × (table s'.world ≡ append new (table s.world))

  pub IsShown-kept :
      (fc : FailingContainer) (w w' : W)
      → view env (key_for pod fc.status) w' ≡ view env (key_for pod fc.status) w
      → (rows : List Diagnosis) → IsShown w fc rows
      → IsShown w' fc rows
  IsShown-kept fc w w' e [] h = tt
  IsShown-kept fc w w' e (row ∷ []) (d, v, spec, count, n, id, at, same) =
      (d, e ∙ v, spec, count, n, id, at, same)
  IsShown-kept fc w w' e (_ ∷ _ ∷ _) h = h

module _ {W : Type 0} (env : Env W) (r : Reconciler) (pod : Pod) where
  notify_waits :
      (result : Result) (d : PodDiagnosis) (s : State W)
      → waiting (notify env r pod result d s).grouper ≤ suc (waiting s.grouper)
  unfolding notify
  notify_waits result d s =
      let key = group_key pod.namespace result.root_cause in
      let next = observe_balances s.grouper key (env.now s.world) in
      elim (Bool-cases (route r.notify_router pod.namespace).ok) [
        | inr e ↦ rw e (omega arith)
        | inl e ↦ elim (Bool-cases (observe s.grouper key (env.now s.world)).0.ok) [
          | inr q ↦ rw (e, q) (omega arith)
          | inl q ↦ rw (e, q) (omega arith)
        ]
      ]

  -- A reconcileContainer adds at most one to what waits.
  pub container_waits :
      (laws : IsServer env) (fc : FailingContainer) (s : State W)
      → waiting (reconcile_container env r pod fc s).1.grouper ≤ suc (waiting s.grouper)
  unfolding report
  container_waits laws fc s =
      reconcile_container_walk env r laws pod fc (λ t. t.grouper ≡ s.grouper)
        (λ t. waiting t.grouper ≤ suc (waiting s.grouper))
        (record {
          creates = λ d t n e. e;
          updates = λ d t n e. e;
          updates_status = λ d t n e. e;
          announces = λ result d t a e.
              let same = ap waiting e in
              let n = notify_waits result d (report env r pod result t) in omega arith;
          rests = λ t e. let same = ap waiting e in omega arith;
        })
        s refl
