-- ===== src/Controller/Reconcile/Server.antt =====
-- What the reconciler relies on: the API server keeps objects by key, an answer carries the key that
-- was asked for, a successful status update stores the status as JSON carries it, a write changes its
-- own key only and a webhook none; a failed creation or status update leaves the stored object alone.
-- A read sees every earlier write: the manager's cache, which may lag behind them, is not modelled.
use poddoctor.Prelude.{String, some, inl, inr, ◌⊎◌, ◌≡◌, ◌≢◌, ◌∙◌}
use poddoctor.Api.{PodDiagnosis, zero_status}
use poddoctor.Notify.Send.{Request}
use poddoctor.Controller.Pods.{Pod}
use poddoctor.Controller.Reconcile.{ApiError, Env}
use poddoctor.Controller.Reconcile.Written.{written}

pub record Key : Type 0 where
  pub namespace : String
  pub name : String

abbrev pub HasKey : Key → PodDiagnosis → Type 0
HasKey k d = (d.meta.namespace ≡ k.namespace) × (d.meta.name ≡ k.name)

abbrev pub key_of : PodDiagnosis → Key
key_of d = record { namespace = d.meta.namespace; name = d.meta.name }

-- What is stored under a key.
abbrev pub view : {W : Type 0} → Env W → Key → W → ApiError ⊎ PodDiagnosis
view env k w = env.get_diagnosis k.namespace k.name w

abbrev pub IsOther : Key → Key → Type 0
IsOther k l = (k.namespace ≢ l.namespace) ⊎ (k.name ≢ l.name)

-- Writes of one kind keep keys, and leave other keys alone.
pub record IsLocal {W : Type 0} (env : Env W)
    (call : PodDiagnosis → W → (ApiError ⊎ PodDiagnosis) × W) : Type 0 where
  pub answered : (d d' : PodDiagnosis) (w : W) → (call d w).0 ≡ inr d' → HasKey (key_of d) d'
  pub others :
      (d : PodDiagnosis) (k : Key) (w : W)
      → IsOther k (key_of d)
      → view env k (call d w).1 ≡ view env k w

pub record IsServer {W : Type 0} (env : Env W) : Type 0 where
  pub found : (k : Key) (d : PodDiagnosis) (w : W) → view env k w ≡ inr d → HasKey k d
  pub owned :
      (pod : Pod) (d d' : PodDiagnosis)
      → env.set_controller pod d ≡ some d'
      → HasKey (key_of d) d' × (d'.status ≡ d.status)
  pub creates : IsLocal env env.create
  pub updates : IsLocal env env.update
  pub updates_status : IsLocal env env.update_status
  pub created :
      (d d' : PodDiagnosis) (w : W)
      → (env.create d w).0 ≡ inr d'
      → (view env (key_of d) (env.create d w).1 ≡ inr d') × (d'.status ≡ zero_status)
  pub status_stored :
      (d d' : PodDiagnosis) (w : W)
      → (env.update_status d w).0 ≡ inr d'
      → (view env (key_of d) (env.update_status d w).1 ≡ inr d') × (d'.status ≡ written d.status)
  pub not_created :
      (d : PodDiagnosis) (e : ApiError) (w : W)
      → (env.create d w).0 ≡ inl e
      → view env (key_of d) (env.create d w).1 ≡ view env (key_of d) w
  pub status_kept :
      (d : PodDiagnosis) (e : ApiError) (w : W)
      → (env.update_status d w).0 ≡ inl e
      → view env (key_of d) (env.update_status d w).1 ≡ view env (key_of d) w
  pub posted : (k : Key) (q : Request) (w : W) → view env k (env.client.post q w).1 ≡ view env k w

pub HasKey-trans : (k : Key) (d d' : PodDiagnosis) → HasKey (key_of d) d' → HasKey k d → HasKey k d'
HasKey-trans k d d' (a, b) (a', b') = (a ∙ a', b ∙ b')

-- The key of an object is any key that it has.
pub view-key_of :
    {W : Type 0} (env : Env W) (k : Key) (d : PodDiagnosis) (w : W)
    → HasKey k d
    → view env (key_of d) w ≡ view env k w
view-key_of env k d w (a, b) = rw (a, b)
