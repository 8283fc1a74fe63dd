-- ===== src/Controller/Reconcile/Sample.antt =====
-- A pod whose containers cannot pull their images, and a reconciler, for the tests.
use poddoctor.Prelude.{String, true, false, Option, some, none, List, [], pos}
use poddoctor.Notify.Router.{Router}
use poddoctor.Controller.Pods.{Pod, ContainerStatus}
use poddoctor.Controller.Reconcile.{Reconciler}

abbrev pub unpulled : String → ContainerStatus
unpulled name = record {
  name = name;
  restart_count = pos 0;
  waiting = some (record { reason = "ErrImagePull"; message = "not found" });
  terminated = none;
}

abbrev pub web_pod : (init_statuses statuses : List ContainerStatus) → Pod
web_pod init_statuses statuses = record {
  name = "web";
  namespace = "shop";
  uid = "u1";
  node_name = "";
  creation = 5;
  deleting = false;
  owners = [];
  revision_hash = "";
  init_statuses = init_statuses;
  statuses = statuses;
}

abbrev pub reconciler_to : Option Router → Reconciler
reconciler_to router = record {
  settings = record { log_tail_lines = pos 50; rollout_window = pos 0 };
  cluster_name = "eu";
  has_recorder = true;
  notify_router = router;
}
