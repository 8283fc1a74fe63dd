-- ===== src/Controller/Evidence/Node.antt =====
-- What the reconciler reads off the conditions of a node.
use mathlib.Core.List.{◌++◌, append-nil, append_assoc}
use poddoctor.Prelude.{
  String, Bool, true, false, not, ◌&&◌, ◌||◌, List, [], ◌∷◌, ◌≡◌, ◌≢◌, some, sym, ap, ◌∙◌, ◌==◌,
  eq_iff, Bool-cases, inl, inr, if◌then◌else◌,
}
use poddoctor.Text.Laws.{test_of_ne}
use poddoctor.Controller.Pods.{Pod}
use poddoctor.Controller.Evidence.{
  NodeCondition, is_pressure, note_condition, note_conditions, Cluster, node_evidence,
}

-- The conditions of a node that say it lacks a resource.
abbrev pub pressure_kinds : List String
pressure_kinds = "DiskPressure" ∷ "MemoryPressure" ∷ "PIDPressure" ∷ []

-- The text is one of the list.
abbrev pub is_among : String → List String → Bool
is_among kind [] = false
is_among kind (k ∷ rest) = kind == k || is_among kind rest

-- The kinds of the pressure conditions that hold.
abbrev pub pressures_of : List NodeCondition → List String
pressures_of [] = []
pressures_of (c ∷ rest) =
    if is_among c.kind pressure_kinds && c.status == "True"
    then c.kind ∷ pressures_of rest
    else pressures_of rest

-- The last `Ready` condition does not hold; `b` if there is none.
abbrev pub not_ready_from : Bool → List NodeCondition → Bool
not_ready_from b [] = b
not_ready_from b (c ∷ rest) =
    not_ready_from (if c.kind == "Ready" then not (c.status == "True") else b) rest

is_pressure_lem : (kind : String) → is_among kind pressure_kinds ≡ is_pressure kind
is_pressure_lem kind = elim (Bool-cases (kind == "MemoryPressure")) [
  | inl m ↦ elim (Bool-cases (kind == "DiskPressure")) [ inl d ↦ rw (m, d) | inr d ↦ rw (m, d) ]
  | inr m ↦ elim (Bool-cases (kind == "DiskPressure")) [
    | inl d ↦ rw (m, d)
    | inr d ↦ elim (Bool-cases (kind == "PIDPressure")) [
      | inl q ↦ rw (m, d, q)
      | inr q ↦ rw (m, d, q)
    ]
  ]
]

pressure_not_ready : (kind : String) → is_pressure kind ≡ true → (kind == "Ready") ≡ false
pressure_not_ready kind h = elim (Bool-cases (kind == "Ready")) [
  | inr e ↦ e
  | inl e ↦ absurd (cc (rw ((eq_iff kind "Ready").0 e) at h))
]

-- One condition.
module _ (ps : List String) (b : Bool) (c : NodeCondition) (rest : List NodeCondition) where
  note_pressures : (note_condition (ps, b) c).0 ++ pressures_of rest ≡ ps ++ pressures_of (c ∷ rest)
  unfolding note_condition
  note_pressures = elim (Bool-cases (is_pressure c.kind)) [
    | inl e ↦ elim (Bool-cases (c.status == "True")) [
      | inl t ↦
          rw (is_pressure_lem c.kind, e, t) (append_assoc ps (c.kind ∷ []) (pressures_of rest))
      | inr t ↦ rw (is_pressure_lem c.kind, e, t)
    ]
    | inr e ↦ elim (Bool-cases (c.kind == "Ready")) [
      | inl q ↦ rw (is_pressure_lem c.kind, e, q)
      | inr q ↦ rw (is_pressure_lem c.kind, e, q)
    ]
  ]

  note_ready :
      (note_condition (ps, b) c).1 ≡ (if c.kind == "Ready" then not (c.status == "True") else b)
  unfolding note_condition
  note_ready = elim (Bool-cases (is_pressure c.kind)) [
    | inl e ↦ rw (e, pressure_not_ready c.kind e)
    | inr e ↦ elim (Bool-cases (c.kind == "Ready")) [ inl q ↦ rw (e, q) | inr q ↦ rw (e, q) ]
  ]

-- Over all conditions.
note_conditions_lem :
    (ps : List String) (b : Bool) (cs : List NodeCondition)
    → note_conditions (ps, b) cs ≡ (ps ++ pressures_of cs, not_ready_from b cs)
unfolding note_conditions
note_conditions_lem ps b [] = ap (λ x. (x, b)) (sym (append-nil ps))
note_conditions_lem ps b (c ∷ rest) =
    note_conditions_lem (note_condition (ps, b) c).0 (note_condition (ps, b) c).1 rest
    ∙ ap (λ x. (x, not_ready_from (note_condition (ps, b) c).1 rest)) (note_pressures ps b c rest)
    ∙ ap (λ x. (ps ++ pressures_of (c ∷ rest), not_ready_from x rest)) (note_ready ps b c rest)

-- When the pod has a node that can be read, nodeEvidence gives the kinds of its conditions
-- DiskPressure, MemoryPressure and PIDPressure with status True, in order, and says not ready
-- exactly if the last Ready condition has another status than True.
pub node_evidence_lem :
    (cluster : Cluster) (pod : Pod) (conditions : List NodeCondition)
    → pod.node_name ≢ ""
    → cluster.node pod.node_name ≡ some conditions
    → node_evidence cluster pod ≡ (pressures_of conditions, not_ready_from false conditions)
unfolding node_evidence
node_evidence_lem cluster pod conditions n e =
    rw (test_of_ne pod.node_name "" n, e) (note_conditions_lem [] false conditions)
