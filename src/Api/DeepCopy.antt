-- ===== src/Api/DeepCopy.antt =====
-- api/v1alpha1/zz_generated.deepcopy.go: the deep copies of the API types. A pointer to a struct of these
-- types is the struct, or none for nil: `new` gives a struct of its own. The copies of metav1.Time,
-- ObjectMeta and ListMeta are apimachinery's, a parameter; those of ObjectMeta and ListMeta are commands.
pub mod Memory
pub mod Values
pub mod Copies
pub mod Laws
mod Sample
mod Tests
use poddoctor.Prelude.{Option, none, some, List, [], ◌∷◌, map}
use poddoctor.Api.{Time, EvidenceEvent, PodDiagnosisSpec}
use poddoctor.Api.DeepCopy.Memory.{
  Address, Status, TypeMeta, Meta, ListMeta, Object, number, events, objects, Cmd, pure, ◌>>=◌,
  alloc, load_number, load_events, load_objects,
}

-- A PodDiagnosisList.
pub record ObjectList : Type 0 where
  pub type_meta : TypeMeta
  pub meta : ListMeta
  pub items : Option Address

-- `DeepCopy`: nil for nil, and `DeepCopyInto` on a new struct.
unfoldable pub or_nil : {A : Type 0} → (A → Cmd A) → Option A → Cmd (Option A)
or_nil copy none = pure none
or_nil copy (some a) = do c ← copy a; pure (some c)

-- `DeepCopyObject`: a nil pointer as a nil interface.
unfoldable pub as_runtime : {A : Type 0} → Cmd (Option A) → Cmd (Option A)
as_runtime copy = do c ← copy; elim c [ none ↦ pure none | some a ↦ pure (some a) ]

pub record Library : Type 0 where
  pub copy_time : Time → Time
  pub copy_meta : Meta → Cmd Meta
  pub copy_list_meta : ListMeta → Cmd ListMeta

module _ (lib : Library) where
  unfoldable pub copy_event : EvidenceEvent → EvidenceEvent
  copy_event e = record e { last_timestamp = lib.copy_time e.last_timestamp }

  -- The two fields of a status that are behind pointers.
  unfoldable pub copy_exit_code : Option Address → Cmd (Option Address)
  copy_exit_code none = pure none
  copy_exit_code (some p) = do n ← load_number p; q ← alloc (number n); pure (some q)

  unfoldable pub copy_events : Option Address → Cmd (Option Address)
  unfolding copy_event
  copy_events none = pure none
  copy_events (some p) = do
    es ← load_events p
    q ← alloc (events (map copy_event es))
    pure (some q)

  -- `DeepCopyInto` of a status.
  unfoldable pub copy_status : Status → Cmd Status
  copy_status s = do
    code ← copy_exit_code s.exit_code
    es ← copy_events s.recent_events
    pure (record s {
      exit_code = code;
      recent_events = es;
      first_observed = lib.copy_time s.first_observed;
      last_observed = lib.copy_time s.last_observed;
    })

  unfoldable pub copy_spec : PodDiagnosisSpec → PodDiagnosisSpec
  copy_spec spec = spec

  -- `DeepCopyInto` of a PodDiagnosis.
  unfoldable pub copy_object : Object → Cmd Object
  copy_object d = do
    meta ← lib.copy_meta d.meta
    status ← copy_status d.status
    pure (record { type_meta = d.type_meta; meta = meta; spec = d.spec; status = status })

  -- The loop over the items of a list.
  unfoldable pub copy_each : List Object → Cmd (List Object)
  copy_each [] = pure []
  copy_each (d ∷ ds) = do c ← copy_object d; cs ← copy_each ds; pure (c ∷ cs)

  unfoldable pub copy_items : Option Address → Cmd (Option Address)
  copy_items none = pure none
  copy_items (some p) = do
    ds ← load_objects p
    cs ← copy_each ds
    q ← alloc (objects cs)
    pure (some q)

  -- `DeepCopyInto` of a PodDiagnosisList.
  unfoldable pub copy_list : ObjectList → Cmd ObjectList
  copy_list l = do
    meta ← lib.copy_list_meta l.meta
    items ← copy_items l.items
    pure (record { type_meta = l.type_meta; meta = meta; items = items })

  unfoldable pub deep_copy_event : Option EvidenceEvent → Cmd (Option EvidenceEvent)
  deep_copy_event = or_nil (λ e. pure (copy_event e))

  unfoldable pub deep_copy_spec : Option PodDiagnosisSpec → Cmd (Option PodDiagnosisSpec)
  deep_copy_spec = or_nil (λ s. pure (copy_spec s))

  unfoldable pub deep_copy_status : Option Status → Cmd (Option Status)
  deep_copy_status = or_nil copy_status

  unfoldable pub deep_copy_object : Option Object → Cmd (Option Object)
  deep_copy_object = or_nil copy_object

  unfoldable pub deep_copy_list : Option ObjectList → Cmd (Option ObjectList)
  deep_copy_list = or_nil copy_list

  unfoldable pub copy_runtime_object : Option Object → Cmd (Option Object)
  copy_runtime_object d = as_runtime (deep_copy_object d)

  unfoldable pub copy_runtime_list : Option ObjectList → Cmd (Option ObjectList)
  copy_runtime_list l = as_runtime (deep_copy_list l)
