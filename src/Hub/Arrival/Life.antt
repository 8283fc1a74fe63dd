-- ===== src/Hub/Arrival/Life.antt =====
-- Many Reconciles, one after the other, of pods whose namespaces have a hub as their webhook.
use poddoctor.Prelude.{
  ℕ, String, List, [], ◌∷◌, inl, inr, ◌⊎◌, ◌≡◌, ◌≢◌, ◌≤◌, ◌<◌, ◌^◌, ◌+◌, refl, Fits, All, length,
  arith, true,
}
use poddoctor.AlertGroup.Total.{waiting}
use poddoctor.Controller.Pods.{Pod, FailingContainer, find_failing_containers}
use poddoctor.Controller.Reconcile.{
  ApiError, not_found, already_exists, conflict, other, Env, Reconciler, State, reconcile_container,
  reconcile_each, reconcile_pod, reconcile,
}
use poddoctor.Controller.Reconcile.Server.{IsServer}
use poddoctor.Controller.Reconcile.Each.{and_then_elim, reconcile_pod_elim}
use poddoctor.Controller.Reconcile.Conclude.{KeepsSpec}
use poddoctor.Hub.Store.{Diagnosis}
use poddoctor.Hub.Api.{Server}
use poddoctor.Hub.Fleet.{IsForHub}
use poddoctor.Hub.Log.{KeepsRows}
use poddoctor.Hub.Arrival.Shown.{LeavesTable, container_waits}
use poddoctor.Hub.Arrival.Balance.{IsBalanced, pod-IsBalanced}

module _ {W : Type 0} (env : Env W) (r : Reconciler) where
  -- The state after a Reconcile of each key.
  abbrev pub reconcile_keys : List (String × String) → State W → State W
  reconcile_keys [] s = s
  reconcile_keys ((namespace, name) ∷ rest) s =
      reconcile_keys rest (reconcile env r namespace name s).1

  module _ (laws : IsServer env) (pod : Pod) where
    each_waits :
        (fcs : List FailingContainer) (s : State W)
        → waiting (reconcile_each env r pod fcs s).1.grouper ≤ waiting s.grouper + length fcs
    unfolding reconcile_each
    each_waits [] s = omega arith
    each_waits (fc ∷ rest) s =
        let here = container_waits env r pod laws fc s in
        let later = each_waits rest (reconcile_container env r pod fc s).1 in
        and_then_elim (λ t. waiting t.grouper ≤ waiting s.grouper + length (fc ∷ rest)) _ _
          (omega arith) (omega arith)

-- At most so many containers of each key.
abbrev pub room : ℕ → List (String × String) → ℕ
room most [] = 0
room most (_ ∷ rest) = most + room most rest

module _ {W : Type 0} (env : Env W) (r : Reconciler) (server : Server W) (most : ℕ) where
  -- A pod for the hub, with a name and a namespace, integers of 32 bits, and not too many failing
  -- containers.
  pub record IsReady (pod : Pod) : Type 0 where
    pub for_hub : IsForHub env r server pod
    pub namespaced : pod.namespace ≢ ""
    pub named : pod.name ≢ ""
    pub fits : All (λ fc. Fits 32 fc.status.restart_count) (find_failing_containers pod)
    pub few : length (find_failing_containers pod) ≤ most

  abbrev pub IsReadyIf : ApiError ⊎ Pod → Type 0
  IsReadyIf (inl e) = Unit
  IsReadyIf (inr pod) = IsReady pod

  module _ (laws : IsServer env) (keeps : KeepsSpec env) (table : W → List Diagnosis)
      (rows : KeepsRows server.store table)
      (accepts : (d : Diagnosis) (w : W) → (server.store.insert d w).0 ≡ true)
      (leaves : LeavesTable env table) where
    -- One Reconcile: the balance, and how much more may wait.
    abbrev IsStep : State W → State W → Type 0
    IsStep s t = IsBalanced table s t × (waiting t.grouper ≤ waiting s.grouper + most)

    pod-IsStep :
        (a : ApiError ⊎ Pod) (s : State W)
        → IsReadyIf a
        → waiting s.grouper + most < 2 ^ 63
        → IsStep s (reconcile_pod env r a s).1
    unfolding reconcile_pod
    pod-IsStep (inl not_found) s a small = (refl, omega arith)
    pod-IsStep (inl already_exists) s a small = (refl, omega arith)
    pod-IsStep (inl conflict) s a small = (refl, omega arith)
    pod-IsStep (inl other) s a small = (refl, omega arith)
    pod-IsStep (inr pod) s a small =
        let few = a.few in
        let more = each_waits env r laws pod (find_failing_containers pod) s in
        (
          pod-IsBalanced env r server pod keeps table rows accepts a.for_hub a.namespaced a.named
              laws leaves s a.fits (omega arith),
          reconcile_pod_elim env r (λ t. waiting t.grouper ≤ waiting s.grouper + most) pod s
              (omega arith) (omega arith),
        )

    -- Over an API server that keeps objects by key, and their specifications, with a hub's store
    -- that accepts each insertion and keeps its rows in a table that the writes of the API server
    -- leave alone, where each pod that is read has a name, a namespace, failing containers no
    -- more than a given number and with restart counts that fit an int32, and a hub's /ingest as
    -- the target of its namespace, with the hub's token and a format that is not Slack, reached
    -- over a network that delivers requests as they are, and where the occurrences that wait in
    -- the grouper, with that number more for each key, fit an int: over any sequence of
    -- Reconciles, however each ends, the diagnoses that the hub's rows stand for, for each row
    -- one and those folded into it, and those that wait in the grouper grow together by the
    -- number of diagnoses that the metric counts.
    pub reconcile_keys-IsBalanced :
        (keys : List (String × String)) (s : State W)
        → ((namespace name : String) (w : W) → IsReadyIf (env.get_pod namespace name w))
        → waiting s.grouper + room most keys < 2 ^ 63
        → IsBalanced table s (reconcile_keys env r keys s)
    unfolding reconcile
    reconcile_keys-IsBalanced [] s ready small = refl
    reconcile_keys-IsBalanced ((namespace, name) ∷ rest) s ready small =
        let (now, more) =
          pod-IsStep (env.get_pod namespace name s.world) s (ready namespace name s.world)
            (omega arith) in
        let later =
          reconcile_keys-IsBalanced rest (reconcile env r namespace name s).1 ready (omega arith) in
        omega arith
