-- ===== src/Hub/Fleet.antt =====
-- From the reconciler to the hub: a namespace's webhook may be a hub's endpoint.
use Prim.Native.String.{◌++◌}
use poddoctor.Prelude.{true, false, ◌≡◌, ◌≢◌, refl, ap, ◌∙◌, pos}
use poddoctor.Api.{cause_name, PodDiagnosis}
use poddoctor.Diagnosis.{Result}
use poddoctor.AlertGroup.{Verdict, observe}
use poddoctor.Notify.Router.{Target, format_slack, route}
use poddoctor.Notify.Router.Laws.{route_ok}
use poddoctor.Notify.Payload.{Notification, payload_of}
use poddoctor.Notify.Send.{send}
use poddoctor.Controller.Pods.{Pod}
use poddoctor.Controller.Reconcile.{Env, Reconciler, State, notify}
use poddoctor.Hub.Server.{diagnosis_of}
use poddoctor.Hub.Api.{Server}
use poddoctor.Hub.Ingest.{IsPayload, arrived}
use poddoctor.Hub.Delivery.{hub_client, send_rows}

module _ {W : Type 0} (env : Env W) (r : Reconciler) (server : Server W) (pod : Pod) where
  abbrev pub target_of : Target
  target_of = route r.notify_router pod.namespace

  -- The namespace's target is the hub: its token is the hub's, and its format the hub's.
  pub record IsForHub : Type 0 where
    pub client : env.client ≡ hub_client server
    pub targeted : target_of.ok ≡ true
    pub token : target_of.token ≡ server.token
    pub format : target_of.format ≢ format_slack

  module _ (result : Result) (d : PodDiagnosis) (s : State W) where
    -- What the grouper says of the diagnosis.
    abbrev pub verdict_of : Verdict
    verdict_of =
        (observe s.grouper (pod.namespace ++ ("/" ++ cause_name result.root_cause))
          (env.now s.world)).0

    abbrev pub notification_of : Notification
    notification_of = record {
      diag = d;
      cluster = r.cluster_name;
      suppressed_count = pos verdict_of.suppressed;
    }

    sent :
        target_of.ok ≡ true
        → verdict_of.ok ≡ true
        → (notify env r pod result d s).world
          ≡ (send env.client target_of.url target_of.format target_of.token notification_of
              s.world).1
    unfolding notify
    sent t v = rw (t, v) refl

    -- What the grouper folds does not reach the hub.
    pub notify_folds :
        target_of.ok ≡ true → verdict_of.ok ≡ false → (notify env r pod result d s).world ≡ s.world
    unfolding notify
    notify_folds t v = rw (t, v) refl

    -- When the target of a pod's namespace is a hub's /ingest with the hub's token and a format that
    -- is not Slack, reached over a network that delivers requests as they are, and the grouper lets
    -- the diagnosis through, the notification of the reconciler, whose numbers fit their Go types and
    -- which names its namespace and pod, leaves the hub's store as the insertion of its row does,
    -- with the operator's cluster name and the number of folded occurrences.
    pub notify-inserts :
        IsForHub
        → verdict_of.ok ≡ true
        → IsPayload (payload_of notification_of)
        → d.spec.pod_namespace ≢ ""
        → d.spec.pod_name ≢ ""
        → (notify env r pod result d s).world
          ≡ (server.store.insert (diagnosis_of (arrived (payload_of notification_of))) s.world).1
    notify-inserts h v p ns name =
        sent h.targeted v
        ∙ ap
            (λ c. (send c target_of.url target_of.format target_of.token notification_of s.world).1)
            h.client
        ∙ ap
            (λ t.
              (send (hub_client server) target_of.url target_of.format t notification_of s.world).1)
            h.token
        ∙ ap (λ x. x.1)
            (send_rows server target_of.url target_of.format notification_of s.world
              (route_ok r.notify_router pod.namespace h.targeted) h.format p ns name)
