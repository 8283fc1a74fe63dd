-- ===== src/Hub/Arrival/Joined.antt =====
-- A cluster and a hub in one world, for a hub whose store keeps to its own part.
use poddoctor.Prelude.{◌≡◌, ◌⊎◌, ap}
use poddoctor.Api.{PodDiagnosis}
use poddoctor.Notify.Send.{HttpClient, Request}
use poddoctor.Controller.Reconcile.{ApiError, Env}
use poddoctor.Controller.Reconcile.Server.{IsServer}
use poddoctor.Controller.Reconcile.Conclude.{KeepsSpec}

module _ {V X : Type 0} where
  -- A write of the cluster.
  abbrev beside :
      (PodDiagnosis → V → (ApiError ⊎ PodDiagnosis) × V)
      → PodDiagnosis
      → V × X
      → (ApiError ⊎ PodDiagnosis) × (V × X)
  beside call d (v, x) = let (a, v') = call d v in (a, (v', x))

  abbrev pub joined : Env V → HttpClient (V × X) → Env (V × X)
  joined env client = record {
    get_pod = λ ns name w. env.get_pod ns name w.0;
    get_diagnosis = λ ns name w. env.get_diagnosis ns name w.0;
    set_controller = env.set_controller;
    create = beside env.create;
    update = beside env.update;
    update_status = beside env.update_status;
    reads = λ w. env.reads w.0;
    now = λ w. env.now w.0;
    client = client;
  }

  module _ (env : Env V) (client : HttpClient (V × X)) where
    pub joined-IsServer :
        IsServer env
        → ((q : Request) (w : V × X) → (client.post q w).1.0 ≡ w.0)
        → IsServer (joined env client)
    joined-IsServer laws posted = record {
      found = λ k d w. laws.found k d w.0;
      owned = laws.owned;
      creates = record {
        answered = λ d d' w. laws.creates.answered d d' w.0;
        others = λ d k w. laws.creates.others d k w.0;
      };
      updates = record {
        answered = λ d d' w. laws.updates.answered d d' w.0;
        others = λ d k w. laws.updates.others d k w.0;
      };
      updates_status = record {
        answered = λ d d' w. laws.updates_status.answered d d' w.0;
        others = λ d k w. laws.updates_status.others d k w.0;
      };
      created = λ d d' w. laws.created d d' w.0;
      status_stored = λ d d' w. laws.status_stored d d' w.0;
      not_created = λ d e w. laws.not_created d e w.0;
      status_kept = λ d e w. laws.status_kept d e w.0;
      posted = λ k q w. ap (λ v. env.get_diagnosis k.namespace k.name v) (posted q w);
    }

    pub joined-KeepsSpec : KeepsSpec env → KeepsSpec (joined env client)
    joined-KeepsSpec keeps = record {
      owned = keeps.owned;
      created = λ d d' w. keeps.created d d' w.0;
      updated = λ d d' w. keeps.updated d d' w.0;
      status_updated = λ d d' w. keeps.status_updated d d' w.0;
    }
