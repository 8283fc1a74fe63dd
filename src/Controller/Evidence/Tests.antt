-- ===== src/Controller/Evidence/Tests.antt =====
-- The functions on pods and evidence, on concrete inputs.
use Prim.Native.String.{◌++◌}
use mathlib.Core.List.{◌++◌ as append}
use poddoctor.Prelude.{
  Bool, Bool-cases, if◌then◌else◌, inl, inr, ℕ, true, none, some, List, [], ◌∷◌, ◌≡◌, ◌≤◌, zero,
  suc, refl, ap, false, pos, length, take,
}
use poddoctor.Controller.Pods.{Pod, diagnosis_name}
use poddoctor.Controller.Pods.Names.{diagnosis_name_collides}
use poddoctor.Controller.Evidence.{
  recent_events, excerpt, max_len, max_bytes, NodeCondition, Cluster, node_evidence,
}
use mathlib.Core.List.Perm
use poddoctor.Api.{EvidenceEvent}
use poddoctor.Controller.Evidence.Recent.{IsNewest, IsSliceSort, recent_events-IsNewest}
use poddoctor.Controller.Evidence.Node.{node_evidence_lem}
use poddoctor.Text.Laws.{ne_of_test}
use poddoctor.Controller.Evidence.Laws.{excerpt_bounds, excerpt_drops_end}

repeat : ℕ → ℕ → List ℕ
repeat zero c = []
repeat (suc n) c = c ∷ repeat n c

length-repeat : (n c : ℕ) → length (repeat n c) ≡ n
unfolding repeat
length-repeat zero c = refl
length-repeat (suc n) c = ap suc (length-repeat n c)

excerpt_bounds_example :
    (length (excerpt (repeat 9000 7)) ≤ max_len)
    × ((before : List ℕ) × (append before (excerpt (repeat 9000 7))
          ≡ take max_bytes (repeat 9000 7)))
excerpt_bounds_example = excerpt_bounds (repeat 9000 7)

excerpt_drops_end_example :
    excerpt (append (repeat max_bytes 7) (1 ∷ 2 ∷ [])) ≡ excerpt (repeat max_bytes 7)
excerpt_drops_end_example =
    excerpt_drops_end (repeat max_bytes 7) (1 ∷ 2 ∷ []) (length-repeat max_bytes 7)

abbrev pod : Pod
pod = record {
  name = "web";
  namespace = "shop";
  uid = "u1";
  node_name = "";
  creation = 5;
  deleting = false;
  owners = [];
  revision_hash = "";
  init_statuses = [];
  statuses =
      record {
        name = "app";
        restart_count = pos 3;
        waiting = some (record { reason = "CrashLoopBackOff"; message = "" });
        terminated = none;
      }
      ∷ [];
}

diagnosis_name_collides_example :
    diagnosis_name "web" ("1" ++ ("-" ++ "app")) ≡ diagnosis_name ("web" ++ ("-" ++ "1")) "app"
diagnosis_name_collides_example = diagnosis_name_collides "web" "1" "app"

abbrev conditions : List NodeCondition
conditions =
    record { kind = "MemoryPressure"; status = "True" }
    ∷ record { kind = "DiskPressure"; status = "False" }
    ∷ record { kind = "Ready"; status = "Unknown" }
    ∷ []

abbrev back_off : EvidenceEvent
back_off = record { reason = "BackOff"; message = ""; count = pos 2; last_timestamp = 4 }

abbrev pulled : EvidenceEvent
pulled = record { reason = "Pulled"; message = ""; count = pos 1; last_timestamp = 9 }

abbrev two_events : List EvidenceEvent
two_events = back_off ∷ pulled ∷ []

abbrev insert_event :
    (EvidenceEvent → EvidenceEvent → Bool) → EvidenceEvent → List EvidenceEvent → List EvidenceEvent
insert_event less a [] = a ∷ []
insert_event less a (b ∷ rest) = if less b a then b ∷ insert_event less a rest else a ∷ b ∷ rest

abbrev insertion_sort :
    (EvidenceEvent → EvidenceEvent → Bool) → List EvidenceEvent → List EvidenceEvent
insertion_sort less [] = []
insertion_sort less (a ∷ rest) = insert_event less a (insertion_sort less rest)

abbrev cluster : Cluster
cluster = record {
  replica_set = λ _ _. none;
  controller_revision = λ _ _. none;
  node = λ _. some conditions;
  search_events = λ _. some two_events;
  previous_logs = λ _ _ _. none;
  sort_slice = λ less events. insertion_sort less events;
  quote = λ s. s;
  duration_text = λ _. "";
}

node_evidence_lem_example :
    node_evidence cluster (record pod { node_name = "n1" }) ≡ ("MemoryPressure" ∷ [], true)
node_evidence_lem_example =
    node_evidence_lem cluster (record pod { node_name = "n1" }) conditions (ne_of_test "n1" "" refl)
      refl

sorts_two : IsSliceSort cluster two_events
sorts_two less weak = elim (Bool-cases (less pulled back_off)) [
  | inl e ↦ rw e (Perm.swap _ _ _, ((weak.asymmetric pulled back_off e, tt), (tt, tt)))
  | inr e ↦ rw e (Perm.refl two_events, ((e, tt), (tt, tt)))
]

recent_events-IsNewest_example : IsNewest two_events (recent_events cluster pod)
recent_events-IsNewest_example = recent_events-IsNewest cluster pod two_events refl sorts_two
