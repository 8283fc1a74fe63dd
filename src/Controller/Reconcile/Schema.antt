-- ===== src/Controller/Reconcile/Schema.antt =====
-- The schema of a PodDiagnosis (the markers and types of api/v1alpha1/poddiagnosis_types.go, and
-- config/crd/bases), and the status that `reconcileContainer` sends.
pub mod Container
pub mod Stored
mod Tests
use mathlib.Core.List.{map}
use poddoctor.Prelude.{
  ap, ◌*◌, ℕ, zero, suc, String, Option, none, some, List, [], ◌∷◌, ◌≡◌, ◌≢◌, ◌≤◌, refl, subst, sym,
  ℤ, pos, leb_ℤ, if◌then◌else◌, Fits, All, length, take, arith, Bool-cases, Option-cases, inl, inr,
}
use poddoctor.Text.Utf8.Length.{length-coerce}
use poddoctor.Text.Laws.{ne_of_test, append-test_left}
use poddoctor.Api.{Time, EvidenceEvent, PodDiagnosisStatus, PodDiagnosis}
use poddoctor.Diagnosis.{Evidence, diagnose}
use poddoctor.Diagnosis.Settled.{IsCause, IsConfidence, diagnose-IsCause, diagnose-IsConfidence}
use poddoctor.Diagnosis.Summary.{diagnose_advises}
use poddoctor.Controller.Pods.{Pod, Terminated, ContainerStatus, FailingContainer, exit_code_ptr}
use poddoctor.Controller.Evidence.{
  newer, Cluster, Settings, max_events, max_len, recent_events, log_tail, gather_evidence,
}
use poddoctor.Controller.Evidence.Laws.{excerpt_bounds}
use poddoctor.Controller.Reconcile.{conclusion, diagnosed}
use poddoctor.Controller.Reconcile.Written.{written, written_event}

-- An integer of 32 bits, where there is one.
abbrev pub FitsIf : Option ℤ → Type 0
FitsIf none = Unit
FitsIf (some n) = Fits 32 n

abbrev pub IsCounted : EvidenceEvent → Type 0
IsCounted e = Fits 32 e.count

-- A diagnosis that is complete, with a bound of its log: its phase, a cause and a confidence of those that the schema lists, a
-- summary and a recommendation, integers of 32 bits, and evidence within its bounds.
pub record IsComplete (bound : ℕ) (st : PodDiagnosisStatus) : Type 0 where
  pub phase : st.phase ≡ "Diagnosed"
  pub cause : IsCause st.root_cause
  pub confidence : IsConfidence st.confidence
  pub summary : st.summary ≢ ""
  pub recommendation : st.recommendation ≢ ""
  pub exit_fits : FitsIf st.exit_code
  pub restarts_fits : Fits 32 st.restart_count
  pub last_fits : Fits 32 st.last_diagnosed_restart_count
  pub counted : All IsCounted st.recent_events
  pub events : length st.recent_events ≤ max_events
  pub excerpt : length st.log_excerpt ≤ bound

-- What Go's types say of a container's status and of the events that are found.
abbrev pub ended_fits : Option Terminated → Option ℤ
ended_fits none = none
ended_fits (some t) = some t.exit_code

pub record HasInts (cs : ContainerStatus) : Type 0 where
  pub restarts : Fits 32 cs.restart_count
  pub exit : FitsIf (ended_fits cs.terminated)

abbrev pub AreCounted : Cluster → Option (List EvidenceEvent) → Type 0
AreCounted cluster none = Unit
AreCounted cluster (some events) = All IsCounted (cluster.sort_slice newer events)

All-take : {A : Type 0} (P : A → Type 0) (n : ℕ) (xs : List A) → All P xs → All P (take n xs)
All-take P zero xs h = tt
All-take P (suc n) [] h = tt
All-take P (suc n) (x ∷ xs) (p, h) = (p, All-take P n xs h)

length-take_le : {A : Type 0} (n : ℕ) (xs : List A) → length (take n xs) ≤ n
length-take_le zero xs = omega arith
length-take_le (suc n) [] = omega arith
length-take_le (suc n) (x ∷ xs) = let h = length-take_le n xs in omega arith

abbrev AreKept : List EvidenceEvent → Type 0
AreKept events = All IsCounted events × (length events ≤ max_events)

events_lem :
    (cluster : Cluster) (pod : Pod)
    → AreCounted cluster (cluster.search_events pod)
    → AreKept (recent_events cluster pod)
unfolding recent_events
events_lem cluster pod h = elim (Option-cases (cluster.search_events pod)) [
  | inl e ↦ rw (recent_events, e) (tt, omega arith)
  | inr (events, e) ↦
      rw (recent_events, e)
        (
          All-take IsCounted max_events _ (subst (AreCounted cluster) e h),
          length-take_le max_events (cluster.sort_slice newer events),
        )
]

log_bounds :
    (cluster : Cluster) (settings : Settings) (pod : Pod) (container : String)
    → length (log_tail cluster settings pod container) ≤ max_len
unfolding log_tail
log_bounds cluster settings pod container =
    let lines = if leb_ℤ settings.log_tail_lines (pos 0) then pos 50 else settings.log_tail_lines in
    elim (Option-cases (cluster.previous_logs pod container lines)) [
      | inl e ↦ rw (log_tail, e) (omega arith)
      | inr (stream, e) ↦ rw (log_tail, e) (excerpt_bounds stream).0
    ]

exit_lem : (cs : ContainerStatus) → exit_code_ptr cs ≡ ended_fits cs.terminated
unfolding exit_code_ptr
exit_lem cs = elim (Option-cases cs.terminated) [ inl e ↦ rw e refl | inr (t, e) ↦ rw e refl ]

conclusion-summary : (ev : Evidence) (fc : FailingContainer) → (conclusion ev fc).summary ≢ ""
unfolding conclusion
conclusion-summary ev fc = elim (Bool-cases fc.is_init) [
  | inl b ↦ rw b (ne_of_test _ "" (append-test_left "[init container] " _ refl))
  | inr b ↦ rw b (diagnose_advises ev).0
]

conclusion_keeps :
    (ev : Evidence) (fc : FailingContainer)
    → ((conclusion ev fc).root_cause ≡ (diagnose ev).root_cause)
      × ((conclusion ev fc).confidence ≡ (diagnose ev).confidence)
      × ((conclusion ev fc).recommendation ≡ (diagnose ev).recommendation)
unfolding conclusion
conclusion_keeps ev fc = elim (Bool-cases fc.is_init) [
  | inl b ↦ rw b (refl, refl, refl)
  | inr b ↦ rw b (refl, refl, refl)
]

-- The status that is sent, whatever the cluster shows.
pub diagnosed-IsComplete :
    (cluster : Cluster) (settings : Settings) (pod : Pod) (fc : FailingContainer) (d : PodDiagnosis)
    (now : Time)
    → HasInts fc.status
    → AreCounted cluster (cluster.search_events pod)
    → let ev = gather_evidence cluster settings pod fc.status in
      IsComplete max_len (diagnosed d ev (conclusion ev fc) fc.status now).status
unfolding diagnosed gather_evidence
diagnosed-IsComplete cluster settings pod fc d now ints counts =
    let ev = gather_evidence cluster settings pod fc.status in
    let (cause, confidence, recommendation) = conclusion_keeps ev fc in
    let (counted, few) = events_lem cluster pod counts in
    record {
      phase = refl;
      cause = subst IsCause (sym cause) (diagnose-IsCause ev);
      confidence = subst IsConfidence (sym confidence) (diagnose-IsConfidence ev);
      summary = conclusion-summary ev fc;
      recommendation = subst (λ s. s ≢ "") (sym recommendation) (diagnose_advises ev).1;
      exit_fits = subst FitsIf (sym (exit_lem fc.status)) ints.exit;
      restarts_fits = ints.restarts;
      last_fits = ints.restarts;
      counted = counted;
      events = few;
      excerpt = log_bounds cluster settings pod fc.status.name;
    }

written-IsCounted :
    (es : List EvidenceEvent)
    → All IsCounted es
    → All IsCounted (map written_event es) × (length (map written_event es) ≡ length es)
written-IsCounted [] h = (tt, refl)
written-IsCounted (e ∷ es) (h, k) = let (a, b) = written-IsCounted es k in ((h, a), ap suc b)

-- The status that is kept: each byte of the log may have become three.
pub written-IsComplete :
    (bound : ℕ) (st : PodDiagnosisStatus)
    → IsComplete bound st
    → IsComplete (3 * bound) (written st)
written-IsComplete bound st c =
    let (counted, same) = written-IsCounted st.recent_events c.counted in
    let long = length-coerce st.log_excerpt in
    let short = c.excerpt in
    record {
      phase = c.phase;
      cause = c.cause;
      confidence = c.confidence;
      summary = c.summary;
      recommendation = c.recommendation;
      exit_fits = c.exit_fits;
      restarts_fits = c.restarts_fits;
      last_fits = c.last_fits;
      counted = counted;
      events = subst (λ n. n ≤ max_events) (sym same) c.events;
      excerpt = omega arith;
    }
