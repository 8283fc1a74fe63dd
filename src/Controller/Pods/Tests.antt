-- ===== src/Controller/Pods/Tests.antt =====
-- A pod with one container that waits for its image, and one that runs.
use poddoctor.Prelude.{true, false, none, [], ◌∷◌, ◌≡◌, ◌⊎◌, ◌↔◌, pos}
use poddoctor.Controller.Pods.{
  Pod, ContainerStatus, FailingContainer, find_failing_containers, failing_pod,
}
use poddoctor.Controller.Pods.Failing.{Among, IsListed, find_failing_containers_iff}
use poddoctor.Controller.Reconcile.Sample.{unpulled, web_pod}

abbrev running : ContainerStatus
running = record { name = "proxy"; restart_count = pos 0; waiting = none; terminated = none }

abbrev pod : Pod
pod = web_pod (running ∷ []) (unpulled "app" ∷ running ∷ [])

find_failing_containers_iff_example :
    ((fc : FailingContainer)
      → Among fc (find_failing_containers pod)
        ↔ (IsListed true fc pod.init_statuses ⊎ IsListed false fc pod.statuses))
    × ((failing_pod pod ≡ true)
        ↔ ((fc : FailingContainer) × Among fc (find_failing_containers pod)))
find_failing_containers_iff_example = find_failing_containers_iff pod
