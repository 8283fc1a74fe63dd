-- ===== src/Hub/Arrival/Pass.antt =====
-- A pass of `Reconcile` over the failing containers of a pod, up to the rows of the hub's table.
use mathlib.Core.List.{◌++◌ as append, append_assoc}
use poddoctor.Prelude.{
  ◌≤◌, suc, String, true, false, List, [], ◌∷◌, inl, inr, ◌≡◌, ◌≢◌, ◌<◌, ◌^◌, ◌+◌, refl, sym, ap,
  ◌∙◌, subst, if◌then◌else◌, Fits, All, length, arith, Bool-cases, is_empty,
}
use poddoctor.AlertGroup.Total.{waiting, suppressed_le}
use poddoctor.Controller.Pods.{Pod, FailingContainer, find_failing_containers}
use poddoctor.Controller.Reconcile.{
  Env, Reconciler, State, Outcome, reconcile_container, reconcile_each, reconcile_pod, reconcile,
}
use poddoctor.Controller.Reconcile.Server.{IsServer}
use poddoctor.Controller.Reconcile.Conclude.{KeepsSpec, IsWritten}
use poddoctor.Controller.Reconcile.Pass.{AreApart, and_then-Ends, each-Keeps, outcome_recheck}
use poddoctor.Hub.Store.{Diagnosis}
use poddoctor.Hub.Api.{Server}
use poddoctor.Hub.Fleet.{IsForHub}
use poddoctor.Hub.Log.{KeepsRows}
use poddoctor.Hub.Arrival.Shown.{LeavesTable, IsShown, BringsAll, IsShown-kept, container_waits}
use poddoctor.Hub.Arrival.{IsArrived, row_announced, verdict_on, reconcile_container-IsArrived}

module _ {W : Type 0} (env : Env W) (r : Reconciler) (server : Server W) (pod : Pod)
    (laws : IsServer env) (keeps : KeepsSpec env) (table : W → List Diagnosis)
    (rows : KeepsRows server.store table) (leaves : LeavesTable env table) where
  written_table : (w w' : W) → IsWritten env w w' → table w' ≡ table w
  written_table w w' (d, inl e) = ap table e ∙ leaves.created d w
  written_table w w' (d, inr e) = ap table e ∙ leaves.updated d w

  -- The rows between two states.
  abbrev Brings : State W → FailingContainer → State W → Type 0
  Brings s fc s' =
      (mine : List Diagnosis) × IsShown env r pod s'.world fc mine
      × (table s'.world ≡ append mine (table s.world))

  module _ (fc : FailingContainer) (s s' : State W) (a : IsArrived env r server pod fc s s') where
    before : table a.written ≡ table s.world
    before =
        ap (λ x. table x.1) (sym a.updated)
        ∙ (leaves.status_updated a.sent a.examined ∙ written_table s.world a.examined a.begun)

    arrived-Brings : Brings s fc s'
    arrived-Brings =
        let verdict = verdict_on env r server pod fc s a.stored a.written in
        let row = row_announced r.cluster_name verdict.suppressed a.stored in
        elim (Bool-cases verdict.ok) [
          | inr v ↦ (
            [],
            tt,
            ap table (
                  a.arrives
                  ∙ ap (λ b. if b then (server.store.insert row a.written).1 else a.written) v)
                ∙ before,
          )
          | inl v ↦
              let here =
                a.arrives
                ∙ ap (λ b. if b then (server.store.insert row a.written).1 else a.written) v in
              elim (Bool-cases (server.store.insert row a.written).0) [
                | inr f ↦ ([], tt, ap table here ∙ (rows.failed row a.written f ∙ before))
                | inl i ↦
                    let (id, at, t) = rows.inserted row a.written i in
                    let mine : Diagnosis = record row { id = id; received_at = at } in
                    (
                      mine ∷ [],
                      (
                        a.stored, a.found, a.specified, a.restarts, verdict.suppressed, id, at,
                        refl,
                      ),
                      ap table here ∙ (t ∙ ap (λ x. mine ∷ x) before),
                    )
              ]
        ]

  module _ (h : IsForHub env r server pod) (ns : pod.namespace ≢ "") (name : pod.name ≢ "") where
    container-Brings :
        (fc : FailingContainer) (s : State W)
        → waiting s.grouper < 2 ^ 63
        → Fits 32 fc.status.restart_count
        → (reconcile_container env r pod fc s).0 ≡ inr false
        → Brings s fc (reconcile_container env r pod fc s).1
    container-Brings fc s small restarts done =
        elim (reconcile_container-IsArrived env r server pod fc laws keeps s h restarts
          (λ key now.
            let m = suppressed_le s.grouper key now in
            record { from = omega arith; to = omega arith })
          ns name done) [
            | inl e ↦ ([], tt, ap (λ t. table t.world) e)
            | inr a ↦ arrived-Brings fc s _ a
          ]

    each-BringsAll :
        (fcs : List FailingContainer) (s : State W)
        → AreApart fcs
        → All (λ fc. Fits 32 fc.status.restart_count) fcs
        → waiting s.grouper + length fcs < 2 ^ 63
        → (reconcile_each env r pod fcs s).0 ≡ inr false
        → BringsAll env r pod table s fcs (reconcile_each env r pod fcs s).1
    unfolding reconcile_each
    each-BringsAll [] s a f small = λ done. ([], refl, refl)
    each-BringsAll (fc ∷ rest) s (apart, a) (fits, f) small =
        and_then-Ends env r laws pod
          (λ t. Brings s fc t × (waiting t.grouper ≤ suc (waiting s.grouper)))
          (λ t. BringsAll env r pod table s (fc ∷ rest) t) (λ t. reconcile_each env r pod rest t)
          (reconcile_container env r pod fc s)
          (λ done.
            (container-Brings fc s (omega arith) fits done, container_waits env r pod laws fc s))
          (λ t ((mine, shown, grown), bounded) done.
            let (later, others, more) = each-BringsAll rest t a f (omega arith) done in
            let kept = each-Keeps env r laws pod fc.status rest apart t in
            (
              append later mine,
              (later, mine, refl, IsShown-kept env r pod fc t.world _ kept mine shown, others),
              more ∙ (ap (append later) grown ∙ sym (append_assoc later mine (table s.world))),
            ))

    none_found :
        (fcs : List FailingContainer) (s : State W)
        → is_empty fcs ≡ true
        → BringsAll env r pod table s fcs s
    none_found [] s e = ([], refl, refl)
    none_found (fc ∷ rest) s e = cc

    -- Where a live pod with a name, a namespace and containers of different names has a hub's
    -- /ingest as the target of its namespace, with the hub's token and a format that is not
    -- Slack, reached over a network that delivers requests as they are, the hub's store keeps its
    -- rows in a table that the writes of the API server leave alone, the API server keeps objects
    -- by key, and their specifications, the restart counts of the failing containers fit an
    -- int32, and the occurrences that wait in the grouper, with one more for each failing
    -- container, an int: a Reconcile that returns without an error or a requeue puts new rows on
    -- top of the table, at most one for each failing container of the pod, in their order, newest
    -- first; each is the row of the diagnosis that is then stored in the cluster for that
    -- container, with its specification and restart count, under the operator's cluster name.
    pub reconcile-BringsAll :
        (namespace key_name : String) (s s' : State W) (o : Outcome)
        → env.get_pod namespace key_name s.world ≡ inr pod
        → pod.deleting ≡ false
        → AreApart (find_failing_containers pod)
        → All (λ fc. Fits 32 fc.status.restart_count) (find_failing_containers pod)
        → waiting s.grouper + length (find_failing_containers pod) < 2 ^ 63
        → reconcile env r namespace key_name s ≡ (inr o, s')
        → o.requeue ≡ false
        → BringsAll env r pod table s (find_failing_containers pod) s'
    unfolding reconcile reconcile_pod
    reconcile-BringsAll namespace key_name s s' o g alive apart fits small e q =
        let e' = subst (λ x. reconcile_pod env r x s ≡ (inr o, s')) g e in
        subst (λ x. BringsAll env r pod table s (find_failing_containers pod) x.1) e'
          (passed (ap (λ x. x.0) e'))
      where
        passed :
            (reconcile_pod env r (inr pod) s).0 ≡ inr o
            → BringsAll env r pod table s
                (find_failing_containers pod)
                (reconcile_pod env r (inr pod) s).1
        passed = elim (Bool-cases (is_empty (find_failing_containers pod))) [
          | inl f ↦ simp (alive, f) (λ _. none_found (find_failing_containers pod) s f)
          | inr f ↦
              simp (alive, f)
                (λ d.
                  each-BringsAll (find_failing_containers pod) s apart fits small
                    (outcome_recheck env r laws pod _ o d q).0)
        ]
