-- ===== src/Api/DeepCopy/Values.antt =====
-- What the API types in memory read as, and what a change of the memory leaves of that.
use poddoctor.Prelude.{String, ◌<◌, ◌≤◌, Option, none, some, List, [], ◌∷◌, ◌≡◌, ◌∙◌, arith, ℤ}
use poddoctor.Api.{EvidenceEvent, ObjectMeta, PodDiagnosis, PodDiagnosisStatus}
use poddoctor.Api.DeepCopy.Memory.{
  Address, Status, TypeMeta, Meta, ListMeta, Object, Cell, number, events, objects, labels, owners,
  Memory,
}
use poddoctor.Api.DeepCopy.{ObjectList}

-- The values: a diagnosis with its type and labels, and a list of them.
pub record ObjectValue : Type 0 where
  pub type_meta : TypeMeta
  pub labels : List (String × String)
  pub diagnosis : PodDiagnosis

pub record ListMetaValue : Type 0 where
  pub resource_version : String
  pub continue : String
  pub remaining : Option ℤ

pub record ListValue : Type 0 where
  pub type_meta : TypeMeta
  pub meta : ListMetaValue
  pub items : List ObjectValue

-- What a pointer or a struct in memory reads as.
abbrev pub HasNumber : Memory → Option Address → Option ℤ → Type 0
HasNumber m none v = v ≡ none
HasNumber m (some p) v = (n : ℤ) × (m.cell p ≡ some (number n)) × (v ≡ some n)

abbrev pub HasEvents : Memory → Option Address → List EvidenceEvent → Type 0
HasEvents m none es = es ≡ []
HasEvents m (some p) es = m.cell p ≡ some (events es)

abbrev pub status_with : Option ℤ → List EvidenceEvent → Status → PodDiagnosisStatus
status_with code es s = record {
  phase = s.phase;
  root_cause = s.root_cause;
  confidence = s.confidence;
  summary = s.summary;
  recommendation = s.recommendation;
  exit_code = code;
  termination_reason = s.termination_reason;
  restart_count = s.restart_count;
  last_diagnosed_restart_count = s.last_diagnosed_restart_count;
  recent_events = es;
  log_excerpt = s.log_excerpt;
  rollout_context = s.rollout_context;
  first_observed = s.first_observed;
  last_observed = s.last_observed;
}

pub record HasStatus (m : Memory) (s : Status) (v : PodDiagnosisStatus) : Type 0 where
  pub code : HasNumber m s.exit_code v.exit_code
  pub evidence : HasEvents m s.recent_events v.recent_events
  pub rest : v ≡ status_with v.exit_code v.recent_events s

abbrev pub HasLabels : Memory → Option Address → List (String × String) → Type 0
HasLabels m none ls = ls ≡ []
HasLabels m (some p) ls = m.cell p ≡ some (labels ls)

abbrev pub HasOwners : Memory → Option Address → Option String → Type 0
HasOwners m none controller = controller ≡ none
HasOwners m (some p) controller = m.cell p ≡ some (owners controller)

pub record HasMeta (m : Memory) (d : Meta) (ls : List (String × String)) (v : ObjectMeta)
    : Type 0 where
  pub name : d.name ≡ v.name
  pub namespace : d.namespace ≡ v.namespace
  pub version : d.resource_version ≡ v.resource_version
  pub labels : HasLabels m d.labels ls
  pub owners : HasOwners m d.owners v.controller

pub record HasListMeta (m : Memory) (d : ListMeta) (v : ListMetaValue) : Type 0 where
  pub version : d.resource_version ≡ v.resource_version
  pub continue : d.continue ≡ v.continue
  pub remaining : HasNumber m d.remaining v.remaining

pub record HasObject (m : Memory) (d : Object) (v : ObjectValue) : Type 0 where
  pub type_meta : d.type_meta ≡ v.type_meta
  pub meta : HasMeta m d.meta v.labels v.diagnosis.meta
  pub spec : d.spec ≡ v.diagnosis.spec
  pub status : HasStatus m d.status v.diagnosis.status

abbrev pub HasEach : Memory → List Object → List ObjectValue → Type 0
HasEach m [] [] = Unit
HasEach m (d ∷ ds) (v ∷ vs) = HasObject m d v × HasEach m ds vs
HasEach m _ _ = ⊥

abbrev pub HasItems : Memory → Option Address → List ObjectValue → Type 0
HasItems m none vs = vs ≡ []
HasItems m (some p) vs = (ds : List Object) × (m.cell p ≡ some (objects ds)) × HasEach m ds vs

pub record HasList (m : Memory) (l : ObjectList) (v : ListValue) : Type 0 where
  pub type_meta : l.type_meta ≡ v.type_meta
  pub meta : HasListMeta m l.meta v.meta
  pub items : HasItems m l.items v.items

-- Every cell was allocated.
abbrev pub IsBounded : Memory → Type 0
IsBounded m = (p : Address) (c : Cell) → m.cell p ≡ some c → p < m.next

-- The cells at these addresses are the same.
abbrev pub Same : Address → Address → Memory → Memory → Type 0
Same lo hi m m' = (p : Address) → lo ≤ p → p < hi → m'.cell p ≡ m.cell p

-- What was allocated before is as it was.
abbrev pub Keeps : Memory → Memory → Type 0
Keeps m m' = Same 0 m.next m m'

-- A reading depends on allocated cells only.
module _ (m m' : Memory) (b : IsBounded m) (k : Keeps m m') where
  pub kept : (p : Address) (c : Cell) → m.cell p ≡ some c → m'.cell p ≡ some c
  kept p c e = k p (omega arith) (b p c e) ∙ e

  pub HasNumber-kept : (p : Option Address) (v : Option ℤ) → HasNumber m p v → HasNumber m' p v
  HasNumber-kept none v h = h
  HasNumber-kept (some p) v (n, e, q) = (n, kept p (number n) e, q)

  pub HasEvents-kept :
      (p : Option Address) (es : List EvidenceEvent) → HasEvents m p es → HasEvents m' p es
  HasEvents-kept none es h = h
  HasEvents-kept (some p) es e = kept p (events es) e

  pub HasStatus-kept : (s : Status) (v : PodDiagnosisStatus) → HasStatus m s v → HasStatus m' s v
  HasStatus-kept s v h = record {
    code = HasNumber-kept s.exit_code v.exit_code h.code;
    evidence = HasEvents-kept s.recent_events v.recent_events h.evidence;
    rest = h.rest;
  }

  pub HasLabels-kept :
      (p : Option Address) (ls : List (String × String)) → HasLabels m p ls → HasLabels m' p ls
  HasLabels-kept none ls h = h
  HasLabels-kept (some p) ls e = kept p (labels ls) e

  pub HasOwners-kept :
      (p : Option Address) (controller : Option String)
      → HasOwners m p controller
      → HasOwners m' p controller
  HasOwners-kept none controller h = h
  HasOwners-kept (some p) controller e = kept p (owners controller) e

  pub HasMeta-kept :
      (d : Meta) (ls : List (String × String)) (v : ObjectMeta)
      → HasMeta m d ls v
      → HasMeta m' d ls v
  HasMeta-kept d ls v h = record {
    name = h.name;
    namespace = h.namespace;
    version = h.version;
    labels = HasLabels-kept d.labels ls h.labels;
    owners = HasOwners-kept d.owners v.controller h.owners;
  }

  pub HasObject-kept : (d : Object) (v : ObjectValue) → HasObject m d v → HasObject m' d v
  HasObject-kept d v h = record {
    type_meta = h.type_meta;
    meta = HasMeta-kept d.meta v.labels v.diagnosis.meta h.meta;
    spec = h.spec;
    status = HasStatus-kept d.status v.diagnosis.status h.status;
  }

  pub HasEach-kept : (ds : List Object) (vs : List ObjectValue) → HasEach m ds vs → HasEach m' ds vs
  HasEach-kept [] [] h = tt
  HasEach-kept (d ∷ ds) (v ∷ vs) (h, r) = (HasObject-kept d v h, HasEach-kept ds vs r)
  HasEach-kept [] (v ∷ vs) h = h
  HasEach-kept (d ∷ ds) [] h = h

  pub HasItems-kept :
      (p : Option Address) (vs : List ObjectValue) → HasItems m p vs → HasItems m' p vs
  HasItems-kept none vs h = h
  HasItems-kept (some p) vs (ds, e, h) = (ds, kept p (objects ds) e, HasEach-kept ds vs h)

  pub HasList-kept : (l : ObjectList) (v : ListValue) → HasList m l v → HasList m' l v
  HasList-kept l v h = record {
    type_meta = h.type_meta;
    meta = record {
      version = h.meta.version;
      continue = h.meta.continue;
      remaining = HasNumber-kept l.meta.remaining v.meta.remaining h.meta.remaining;
    };
    items = HasItems-kept l.items v.items h.items;
  }
