-- ===== src/Controller/Evidence.antt =====
-- The evidence that the reconciler gathers: events, logs, rollout timing and node conditions. What it
-- reads from the cluster is a parameter, `Cluster`; an unsuccessful read is none. The rate limiter
-- before the reads delays them, or fails with a line in the log; the reads follow either way.
pub mod Laws
pub mod Node
pub mod Recent
mod Tests
use Prim.Native.String.{◌++◌}
use mathlib.Core.List.{◌++◌ as append}
use poddoctor.Prelude.{
  ℕ, String, Bool, true, false, not, Option, none, some, List, [], ◌∷◌, ◌==◌, ◌||◌, ◌+◌, ◌-◌, ◌*◌,
  ◌%◌, ◌^◌, ℤ, pos, negsuc, pos_part, leb_ℤ, ltb, leb, nat_eq, take, drop, length, if◌then◌else◌,
}
use poddoctor.Text.{decimal}
use poddoctor.Api.{Time, Duration, sub, max_duration, min_duration, EvidenceEvent}
use poddoctor.Diagnosis.{Evidence}
use poddoctor.Controller.Pods.{Pod, ContainerStatus, OwnerReference, find_owner, find_owner_any}

pub record ReplicaSet : Type 0 where
  pub name : String
  pub creation : Time
  -- the annotation deployment.kubernetes.io/revision
  pub revision : String
  pub owners : List OwnerReference

pub record ControllerRevision : Type 0 where
  pub name : String
  pub creation : Time
  pub revision : ℤ

pub record NodeCondition : Type 0 where
  pub kind : String
  pub status : String

-- Reads of the cluster; sort.Slice, over the values that its comparator indexes; and `%q` and
-- Duration.String of Go. `search_events` and `previous_logs` are none without a client set, too.
pub record Cluster : Type 0 where
  pub replica_set : String → String → Option ReplicaSet
  pub controller_revision : String → String → Option ControllerRevision
  pub node : String → Option (List NodeCondition)
  pub search_events : Pod → Option (List EvidenceEvent)
  pub previous_logs : Pod → String → ℤ → Option (List ℕ)
  pub sort_slice : (EvidenceEvent → EvidenceEvent → Bool) → List EvidenceEvent → List EvidenceEvent
  pub quote : String → String
  pub duration_text : Duration → String

-- The fields of the reconciler that bound the gathering.
pub record Settings : Type 0 where
  pub log_tail_lines : ℤ
  pub rollout_window : Duration

abbrev pub max_events : ℕ
max_events = 5

-- The comparator of `recentEvents`: the second event is from before the first.
unfoldable pub newer : EvidenceEvent → EvidenceEvent → Bool
newer a b = ltb b.last_timestamp a.last_timestamp

-- `recentEvents`
unfoldable pub recent_events : Cluster → Pod → List EvidenceEvent
recent_events cluster pod = elim (cluster.search_events pod) [
  | none ↦ []
  | some events ↦ take max_events (cluster.sort_slice newer events)
]

abbrev pub max_bytes : ℕ
max_bytes = 8192

abbrev pub max_len : ℕ
max_len = 4000

-- The part of a log stream that `logTail` keeps: one read of a bounded buffer, then its end.
unfoldable pub excerpt : List ℕ → List ℕ
excerpt stream =
    let text = take max_bytes stream in
    if ltb max_len (length text) then drop (length text - max_len) text else text

-- `logTail`
unfoldable pub log_tail : Cluster → Settings → Pod → String → List ℕ
log_tail cluster settings pod container =
    elim (cluster.previous_logs pod container
      (if leb_ℤ settings.log_tail_lines (pos 0) then pos 50 else settings.log_tail_lines)) [
        | none ↦ []
        | some stream ↦ excerpt stream
      ]

-- Nanoseconds.
abbrev pub second : ℕ
second = 10 ^ 9

unfoldable pub rollout_window : Settings → Duration
rollout_window settings =
    if leb_ℤ settings.rollout_window (pos 0) then pos (600 * second) else settings.rollout_window

-- `!pod.CreationTimestamp.After(creation.Add(window))`; the window is positive.
unfoldable pub within : Time → Duration → Time → Bool
within created window at = leb at (created + pos_part window)

-- Duration.Round(time.Second): half away from zero, and the extreme duration if that overflows.
unfoldable pub round_second : Duration → Duration
round_second (pos n) =
    let r = n % second in
    if ltb (r + r) second
    then pos (n - r)
    else if leb_ℤ (pos (n + second - r)) max_duration
    then pos (n + second - r)
    else max_duration
round_second (negsuc k) =
    let n = k + 1 in
    let r = n % second in
    let whole : ℕ = if ltb (r + r) second then n - r else n + second - r in
    if nat_eq whole 0
    then pos 0
    else if leb_ℤ min_duration (negsuc (whole - 1))
    then negsuc (whole - 1)
    else min_duration

-- What `rolloutContext` returns: the flag and the text.
abbrev pub Rollout : Type 0
Rollout = Bool × String

unfoldable pub rollout_from_replica_set : Cluster → Settings → Pod → OwnerReference → Rollout
unfolding find_owner
rollout_from_replica_set cluster settings pod ref =
    elim (cluster.replica_set pod.namespace ref.name) [
      | none ↦ (false, "")
      | some rs ↦
          let elapsed = cluster.duration_text (round_second (sub pod.creation rs.creation)) in
          if not (within rs.creation (rollout_window settings) pod.creation)
          then (false, "")
          else elim (find_owner rs.owners "Deployment") [
            | none ↦ (
              true,
              "pod started "
                  ++ (elapsed
                      ++ (" after replicaset "
                          ++ (cluster.quote rs.name
                              ++ (" (revision " ++ (rs.revision ++ ") was created"))))),
            )
            | some deploy ↦ (
              true,
              "pod started "
                  ++ (elapsed
                      ++ (" after deployment "
                          ++ (cluster.quote deploy.name
                              ++ (" rolled out replicaset "
                                  ++ (cluster.quote rs.name
                                      ++ (" (revision " ++ (rs.revision ++ ")"))))))),
            )
          ]
    ]

unfoldable pub rollout_from_revision : Cluster → Settings → Pod → OwnerReference → Rollout
rollout_from_revision cluster settings pod owner =
    if pod.revision_hash == ""
    then (false, "")
    else elim (cluster.controller_revision pod.namespace pod.revision_hash) [
      | none ↦ (false, "")
      | some rev ↦
          let elapsed = cluster.duration_text (round_second (sub pod.creation rev.creation)) in
          if not (within rev.creation (rollout_window settings) pod.creation)
          then (false, "")
          else (
            true,
            "pod started "
                ++ (elapsed
                    ++ (" after "
                        ++ (owner.kind
                            ++ (" "
                                ++ (cluster.quote owner.name
                                    ++ (" rolled out revision "
                                        ++ (cluster.quote rev.name
                                            ++ (" (revision "
                                                ++ (decimal rev.revision ++ ")"))))))))),
          )
    ]

unfoldable pub rollout_context : Cluster → Settings → Pod → Rollout
unfolding find_owner
rollout_context cluster settings pod = elim (find_owner pod.owners "ReplicaSet") [
  | some rs ↦ rollout_from_replica_set cluster settings pod rs
  | none ↦ elim (find_owner_any pod.owners ("StatefulSet" ∷ "DaemonSet" ∷ [])) [
    | some owner ↦ rollout_from_revision cluster settings pod owner
    | none ↦ (false, "")
  ]
]

-- What `nodeEvidence` returns: the pressures and the flag.
abbrev pub NodeState : Type 0
NodeState = List String × Bool

abbrev pub is_pressure : String → Bool
is_pressure kind = kind == "MemoryPressure" || kind == "DiskPressure" || kind == "PIDPressure"

-- One round of the loop of `nodeEvidence`.
unfoldable pub note_condition : NodeState → NodeCondition → NodeState
note_condition (pressures, not_ready) cond =
    if is_pressure cond.kind
    then (if cond.status == "True" then append pressures (cond.kind ∷ []) else pressures, not_ready)
    else if cond.kind == "Ready"
    then (pressures, not (cond.status == "True"))
    else (pressures, not_ready)

unfoldable pub note_conditions : NodeState → List NodeCondition → NodeState
note_conditions state [] = state
note_conditions state (cond ∷ rest) = note_conditions (note_condition state cond) rest

unfoldable pub node_evidence : Cluster → Pod → NodeState
node_evidence cluster pod =
    if pod.node_name == "" then ([], false) else elim (cluster.node pod.node_name) [
      | none ↦ ([], false)
      | some conditions ↦ note_conditions ([], false) conditions
    ]

unfoldable pub gather_evidence : Cluster → Settings → Pod → ContainerStatus → Evidence
gather_evidence cluster settings pod cs = record {
  waiting_reason = elim cs.waiting [ none ↦ "" | some w ↦ w.reason ];
  waiting_message = elim cs.waiting [ none ↦ "" | some w ↦ w.message ];
  has_terminated = elim cs.terminated [ none ↦ false | some t ↦ true ];
  terminated_reason = elim cs.terminated [ none ↦ "" | some t ↦ t.reason ];
  terminated_message = elim cs.terminated [ none ↦ "" | some t ↦ t.message ];
  exit_code = elim cs.terminated [ none ↦ pos 0 | some t ↦ t.exit_code ];
  restart_count = cs.restart_count;
  recent_events = recent_events cluster pod;
  log_tail = log_tail cluster settings pod cs.name;
  recent_rollout = (rollout_context cluster settings pod).0;
  rollout_context = (rollout_context cluster settings pod).1;
  node_pressure_conditions = (node_evidence cluster pod).0;
  node_not_ready = (node_evidence cluster pod).1;
}
