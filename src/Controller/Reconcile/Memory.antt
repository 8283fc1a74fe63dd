-- ===== src/Controller/Reconcile/Memory.antt =====
-- An API server in memory for one pod, which shows that the laws of a server can hold. `rejects` makes
-- status updates fail with a conflict; a webhook always answers 200.
use mathlib.Core.Path.{Path}
use mathlib.Core.Sum.{inr-injective}
use mathlib.Core.Option.{some-injective}
use poddoctor.Prelude.{
  ℕ, zero, suc, String, true, ◌&&◌, Option, none, some, inl, inr, ◌⊎◌, ◌≡◌, refl, sym, ap, subst,
  ◌==◌, eq_refl, Bool-cases, if◌then◌else◌,
}
use poddoctor.Api.{PodDiagnosis, zero_status}
use poddoctor.Text.Laws.{test_of_ne}
use poddoctor.Controller.Pods.{Pod}
use poddoctor.Controller.Evidence.{Cluster}
use poddoctor.Controller.Reconcile.{ApiError, not_found, already_exists, conflict, Env}
use poddoctor.Controller.Reconcile.Written.{written}
use poddoctor.Controller.Reconcile.Server.{Key, HasKey, key_of, IsOther, view, IsServer}

pub record Memory : Type 0 where
  pub objects : String → String → Option PodDiagnosis
  pub rejects : ℕ

abbrev pub renamed : String → String → PodDiagnosis → PodDiagnosis
renamed namespace name d = record d { meta = record d.meta { namespace = namespace; name = name } }

abbrev pub put : PodDiagnosis → Memory → Memory
put d m = record m {
  objects = λ ns name.
      if (ns == d.meta.namespace) && (name == d.meta.name) then some d else m.objects ns name;
}

abbrev pub read : String → String → Option PodDiagnosis → ApiError ⊎ PodDiagnosis
read ns name none = inl not_found
read ns name (some d) = inr (renamed ns name d)

abbrev pub create_over :
    Option PodDiagnosis → PodDiagnosis → Memory → (ApiError ⊎ PodDiagnosis) × Memory
create_over (some _) d m = (inl already_exists, m)
create_over none d m =
    (inr (record d { status = zero_status }), put (record d { status = zero_status }) m)

abbrev pub update_over :
    Option PodDiagnosis → PodDiagnosis → Memory → (ApiError ⊎ PodDiagnosis) × Memory
update_over none d m = (inl not_found, m)
update_over (some old) d m =
    (inr (record d { status = old.status }), put (record d { status = old.status }) m)

abbrev pub status_over :
    ℕ → Option PodDiagnosis → PodDiagnosis → Memory → (ApiError ⊎ PodDiagnosis) × Memory
status_over (suc left) _ d m = (inl conflict, record m { rejects = left })
status_over zero none d m = (inl not_found, m)
status_over zero (some _) d m =
    (inr (record d { status = written d.status }), put (record d { status = written d.status }) m)

abbrev pub quiet_cluster : Cluster
quiet_cluster = record {
  replica_set = λ _ _. none;
  controller_revision = λ _ _. none;
  node = λ _. none;
  search_events = λ _. none;
  previous_logs = λ _ _ _. none;
  sort_slice = λ _ events. events;
  quote = λ s. s;
  duration_text = λ _. "";
}

abbrev pub memory : Pod → Env Memory
memory pod = record {
  get_pod = λ _ _ _. inr pod;
  get_diagnosis = λ ns name m. read ns name (m.objects ns name);
  set_controller = λ p d. some (record d { meta = record d.meta { controller = some p.uid } });
  create = λ d m. create_over (m.objects d.meta.namespace d.meta.name) d m;
  update = λ d m. update_over (m.objects d.meta.namespace d.meta.name) d m;
  update_status = λ d m. status_over m.rejects (m.objects d.meta.namespace d.meta.name) d m;
  reads = λ _. quiet_cluster;
  now = λ _. 100;
  client = record { valid_url = λ _. true; post = λ _ m. (some 200, m) };
}

module _ (pod : Pod) where
  pub put_here : (d : PodDiagnosis) (m : Memory) → view (memory pod) (key_of d) (put d m) ≡ inr d
  put_here d m = rw (eq_refl d.meta.namespace, eq_refl d.meta.name)

  put_there :
      (d : PodDiagnosis) (k : Key) (m : Memory)
      → IsOther k (key_of d)
      → view (memory pod) k (put d m) ≡ view (memory pod) k m
  put_there d k m (inl n) = simp (test_of_ne k.namespace d.meta.namespace n)
  put_there d k m (inr n) = elim (Bool-cases (k.namespace == d.meta.namespace)) [
    | inl e ↦ simp (e, test_of_ne k.name d.meta.name n)
    | inr e ↦ simp e
  ]

  read_keyed :
      (k : Key) (o : Option PodDiagnosis) (d : PodDiagnosis)
      → read k.namespace k.name o ≡ inr d
      → HasKey k d
  read_keyed k none d e = cc
  read_keyed k (some c) d e =
      let p = inr-injective {A = ApiError} _ _ e in
      (sym (ap (λ x. x.meta.namespace) p), sym (ap (λ x. x.meta.name) p))

  -- The answer of a write that stored what it answers.
  abbrev pub IsStored : PodDiagnosis → PodDiagnosis → Memory → Type 0
  IsStored d d' m = HasKey (key_of d) d' × (view (memory pod) (key_of d) m ≡ inr d')

  stores :
      (d x d' : PodDiagnosis) (m : Memory)
      → HasKey (key_of d) x
      → key_of x ≡ key_of d
      → Path (ApiError ⊎ PodDiagnosis) (inr x) (inr d')
      → IsStored d d' (put x m) × (d' ≡ x)
  stores d x d' m h k e =
      let p = inr-injective {A = ApiError} _ _ e in
      subst (λ y. IsStored d y (put x m) × (y ≡ x)) p
        ((h, subst (λ l. view (memory pod) l (put x m) ≡ inr x) k (put_here x m)), refl)

  create_lem :
      (o : Option PodDiagnosis) (d d' : PodDiagnosis) (m : Memory)
      → (create_over o d m).0 ≡ inr d'
      → IsStored d d' (create_over o d m).1 × (d'.status ≡ zero_status)
  create_lem none d d' m e =
      let (kept, same) = stores d (record d { status = zero_status }) d' m (refl, refl) refl e in
      (kept, ap (λ x. x.status) same)
  create_lem (some _) d d' m e = cc

  create_apart :
      (o : Option PodDiagnosis) (d : PodDiagnosis) (k : Key) (m : Memory)
      → IsOther k (key_of d)
      → view (memory pod) k (create_over o d m).1 ≡ view (memory pod) k m
  create_apart none d k m a = put_there (record d { status = zero_status }) k m a
  create_apart (some _) d k m a = refl

  create_fails :
      (o : Option PodDiagnosis) (d : PodDiagnosis) (e : ApiError) (m : Memory)
      → (create_over o d m).0 ≡ inl e
      → (create_over o d m).1 ≡ m
  create_fails none d e m q = cc
  create_fails (some _) d e m q = refl

  pub update_lem :
      (o : Option PodDiagnosis) (d d' : PodDiagnosis) (m : Memory)
      → (update_over o d m).0 ≡ inr d'
      → IsStored d d' (update_over o d m).1
  update_lem none d d' m e = cc
  update_lem (some old) d d' m e =
      (stores d (record d { status = old.status }) d' m (refl, refl) refl e).0

  update_apart :
      (o : Option PodDiagnosis) (d : PodDiagnosis) (k : Key) (m : Memory)
      → IsOther k (key_of d)
      → view (memory pod) k (update_over o d m).1 ≡ view (memory pod) k m
  update_apart none d k m a = refl
  update_apart (some old) d k m a = put_there (record d { status = old.status }) k m a

  status_lem :
      (b : ℕ) (o : Option PodDiagnosis) (d d' : PodDiagnosis) (m : Memory)
      → (status_over b o d m).0 ≡ inr d'
      → IsStored d d' (status_over b o d m).1 × (d'.status ≡ written d.status)
  status_lem (suc left) o d d' m e = cc
  status_lem zero none d d' m e = cc
  status_lem zero (some _) d d' m e =
      let (kept, same) =
        stores d (record d { status = written d.status }) d' m (refl, refl) refl e in
      (kept, ap (λ x. x.status) same)

  status_apart :
      (b : ℕ) (o : Option PodDiagnosis) (d : PodDiagnosis) (k : Key) (m : Memory)
      → IsOther k (key_of d)
      → view (memory pod) k (status_over b o d m).1 ≡ view (memory pod) k m
  status_apart (suc left) o d k m a = refl
  status_apart zero none d k m a = refl
  status_apart zero (some _) d k m a = put_there (record d { status = written d.status }) k m a

  status_fails :
      (b : ℕ) (o : Option PodDiagnosis) (d : PodDiagnosis) (e : ApiError) (m : Memory)
      → (status_over b o d m).0 ≡ inl e
      → (status_over b o d m).1.objects ≡ m.objects
  status_fails (suc left) o d e m q = refl
  status_fails zero none d e m q = refl
  status_fails zero (some _) d e m q = cc

  -- It is a server.
  pub memory-IsServer : IsServer (memory pod)
  memory-IsServer = record {
    found = λ k d m e. read_keyed k (m.objects k.namespace k.name) d e;
    owned = λ p d d' e.
        let q = some-injective _ _ e in
        subst (λ x. HasKey (key_of d) x × (x.status ≡ d.status)) q ((refl, refl), refl);
    creates = record {
      answered = λ d d' m e. (create_lem _ d d' m e).0.0;
      others = λ d k m a. create_apart _ d k m a;
    };
    updates = record {
      answered = λ d d' m e. (update_lem _ d d' m e).0;
      others = λ d k m a. update_apart _ d k m a;
    };
    updates_status = record {
      answered = λ d d' m e. (status_lem _ _ d d' m e).0.0;
      others = λ d k m a. status_apart _ _ d k m a;
    };
    created = λ d d' m e. let ((h, v), z) = create_lem _ d d' m e in (v, z);
    status_stored = λ d d' m e. let ((h, v), z) = status_lem _ _ d d' m e in (v, z);
    not_created = λ d e m q. ap (view (memory pod) (key_of d)) (create_fails _ d e m q);
    status_kept = λ d e m q.
        ap (λ o. read d.meta.namespace d.meta.name (o d.meta.namespace d.meta.name))
          (status_fails _ _ d e m q);
    posted = λ k q m. refl;
  }
