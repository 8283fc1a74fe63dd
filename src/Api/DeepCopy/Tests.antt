-- ===== src/Api/DeepCopy/Tests.antt =====
-- A list of one object with an exit code and an event, copied.
use poddoctor.Prelude.{
  String, Option, none, some, List, [], ◌∷◌, ◌≡◌, refl, arith, nat_eq, nat_eq_iff, pos,
  if◌then◌else◌,
}
use poddoctor.Api.{RootCause, Confidence, EvidenceEvent}
use poddoctor.Api.DeepCopy.Memory.{
  Address, Status, TypeMeta, Object, Cell, number, events, objects, labels, owners, Memory,
}
use poddoctor.Api.DeepCopy.{ObjectList, copy_runtime_list}
use poddoctor.Api.DeepCopy.Values.{
  ObjectValue, ListValue, HasItems, HasList, IsBounded, Same, Keeps, status_with,
}
use poddoctor.Api.DeepCopy.Sample.{lib, lib-IsCopying}
use poddoctor.Api.DeepCopy.Laws.{copy_runtime_list_lem}

abbrev killed : List EvidenceEvent
killed = record { reason = "OOMKilling"; message = ""; count = pos 1; last_timestamp = 7 } ∷ []

abbrev status : Status
status = record {
  phase = "Diagnosed";
  root_cause = RootCause.oom_killed;
  confidence = Confidence.high;
  summary = "";
  recommendation = "";
  exit_code = some 0;
  termination_reason = "OOMKilled";
  restart_count = pos 2;
  last_diagnosed_restart_count = pos 2;
  recent_events = some 1;
  log_excerpt = [];
  rollout_context = "";
  first_observed = 3;
  last_observed = 7;
}

abbrev diagnosis_type : TypeMeta
diagnosis_type = record {
  kind = "PodDiagnosis";
  api_version = "diagnostics.poddoctor.dev/v1alpha1";
}

abbrev object : Object
object = record {
  type_meta = diagnosis_type;
  meta = record {
    name = "web-app";
    namespace = "shop";
    resource_version = 1;
    labels = some 3;
    owners = some 4;
  };
  spec = record { pod_name = "web"; pod_namespace = "shop"; container_name = "app"; pod_uid = "u" };
  status = status;
}

abbrev team : List (String × String)
team = ("team", "shop") ∷ []

abbrev value : ObjectValue
value = record {
  type_meta = diagnosis_type;
  labels = team;
  diagnosis = record {
    meta = record {
      name = "web-app";
      namespace = "shop";
      controller = some "u";
      resource_version = 1;
    };
    spec = object.spec;
    status = status_with (some (pos 137)) killed status;
  };
}

abbrev cells : Address → Option Cell
cells p =
    if nat_eq p 0
    then some (number (pos 137))
    else if nat_eq p 1
    then some (events killed)
    else if nat_eq p 2
    then some (objects (object ∷ []))
    else if nat_eq p 3
    then some (labels team)
    else if nat_eq p 4
    then some (owners (some "u"))
    else if nat_eq p 5
    then some (number (pos 0))
    else none

abbrev memory : Memory
memory = record { next = 6; cell = cells }

memory-IsBounded : IsBounded memory
memory-IsBounded p c e = ground (
  arith,
  nat_eq_iff p 0,
  nat_eq_iff p 1,
  nat_eq_iff p 2,
  nat_eq_iff p 3,
  nat_eq_iff p 4,
  nat_eq_iff p 5,
)

abbrev list_type : TypeMeta
list_type = record { kind = "PodDiagnosisList"; api_version = "diagnostics.poddoctor.dev/v1alpha1" }

abbrev one : ObjectList
one = record {
  type_meta = list_type;
  meta = record { resource_version = "7"; continue = ""; remaining = some 5 };
  items = some 2;
}

abbrev one_value : ListValue
one_value = record {
  type_meta = list_type;
  meta = record { resource_version = "7"; continue = ""; remaining = some (pos 0) };
  items = value ∷ [];
}

one-HasItems : HasItems memory one.items (value ∷ [])
one-HasItems = (
  object ∷ [],
  refl,
  (
    record {
      type_meta = refl;
      meta = record { name = refl; namespace = refl; version = refl; labels = refl; owners = refl };
      spec = refl;
      status = record { code = (pos 137, refl, refl); evidence = refl; rest = refl };
    },
    tt,
  ),
)

one-HasList : HasList memory one one_value
one-HasList = record {
  type_meta = refl;
  meta = record { version = refl; continue = refl; remaining = (pos 0, refl, refl) };
  items = one-HasItems;
}

copy_runtime_list_lem_example :
    (c : ObjectList) × (m' : Memory) × (copy_runtime_list lib (some one) memory ≡ some (some c, m'))
    × ((w : Memory) → Same 6 m'.next m' w → HasList w c one_value)
    × ((w : Memory) → Keeps memory w → HasList w one one_value)
    × Keeps memory m'
copy_runtime_list_lem_example =
    copy_runtime_list_lem lib lib-IsCopying memory one one_value memory-IsBounded one-HasList
