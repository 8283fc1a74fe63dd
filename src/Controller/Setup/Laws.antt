-- ===== src/Controller/Setup/Laws.antt =====
-- What the reconciler works with once it is set up.
use native.Mathlib.Nat.{le-div_iff_mul-le, div-lt_iff_lt-mul, one-le-pow}
use poddoctor.Prelude.{
  ℕ, String, none, ◌*◌, ◌^◌, ◌≡◌, refl, Bool-cases, Option-cases, [], ◌∷◌, ◌==◌, inl, inr, ℤ, pos,
  pos_part, leb_ℤ, leb_ℤ_iff, ◌≤ℤ◌, ◌≤◌, ◌<◌, ◌/◌, true, some, ltb, ◌↔◌, ◌⊎◌, arith,
}
use poddoctor.Api.{Duration}
use poddoctor.Controller.Pods.{Pod, OwnerReference, find_owner_any, ContainerStatus}
use poddoctor.Controller.Evidence.{
  Cluster, Settings, rollout_window, log_tail, rollout_from_replica_set, rollout_from_revision,
  rollout_context, gather_evidence,
}
use poddoctor.Controller.Setup.{
  Float, Setup, burst_of, default_lines, default_duration, default_limiter, set_up,
}

default_lines_lem : (n : ℤ) → (pos 1 ≤ℤ default_lines n) × (pos 1 ≤ℤ n → default_lines n ≡ n)
unfolding default_lines
default_lines_lem n = ground (arith, leb_ℤ_iff n (pos 0))

default_duration_lem :
    (seconds : ℕ) (w : Duration)
    → 1 ≤ seconds
    → (pos 1 ≤ℤ default_duration seconds w) × (pos 1 ≤ℤ w → default_duration seconds w ≡ w)
unfolding default_duration
default_duration_lem seconds w h = ground (arith, leb_ℤ_iff w (pos 0))

lines_twice : (n : ℤ) → default_lines (default_lines n) ≡ default_lines n
lines_twice n = (default_lines_lem (default_lines n)).1 (default_lines_lem n).0

window_twice :
    (w : Duration) → default_duration 600 (default_duration 600 w) ≡ default_duration 600 w
window_twice w =
    (default_duration_lem 600 (default_duration 600 w) (omega arith)).1
      (default_duration_lem 600 w (omega arith)).0

pub window-set_up : (s : Setup) → rollout_window (set_up s).settings ≡ rollout_window s.settings
unfolding set_up rollout_window
window-set_up s = window_twice s.settings.rollout_window

pub lines-set_up :
    (s : Setup)
    → default_lines (set_up s).settings.log_tail_lines ≡ default_lines s.settings.log_tail_lines
unfolding set_up
lines-set_up s = lines_twice s.settings.log_tail_lines

module _ (cluster : Cluster) (a b : Settings) where
  module _ (e : rollout_window a ≡ rollout_window b) (pod : Pod) where
    replica_set_same :
        (ref : OwnerReference)
        → rollout_from_replica_set cluster a pod ref ≡ rollout_from_replica_set cluster b pod ref
    unfolding rollout_from_replica_set
    replica_set_same ref = elim (Option-cases (cluster.replica_set pod.namespace ref.name)) [
      | inl n ↦ rw (n, rollout_from_replica_set) refl
      | inr (rs, s) ↦ rw (s, rollout_from_replica_set, e) refl
    ]

    revision_same :
        (ref : OwnerReference)
        → rollout_from_revision cluster a pod ref ≡ rollout_from_revision cluster b pod ref
    unfolding rollout_from_revision
    revision_same ref = elim (Bool-cases (pod.revision_hash == "")) [
      | inl h ↦ rw h refl
      | inr h ↦ elim (Option-cases (cluster.controller_revision pod.namespace pod.revision_hash)) [
        | inl n ↦ rw (h, n) refl
        | inr (rev, s) ↦ rw (h, s, e) refl
      ]
    ]

    rollout_same : rollout_context cluster a pod ≡ rollout_context cluster b pod
    unfolding rollout_context
    rollout_same = elim (Option-cases (find_owner_any pod.owners ("ReplicaSet" ∷ []))) [
      | inr (rs, s) ↦ rw (s, rollout_context) (replica_set_same rs)
      | inl n ↦ elim (Option-cases (find_owner_any pod.owners ("StatefulSet" ∷ "DaemonSet" ∷ []))) [
        | inl m ↦ rw (n, rollout_context, m) refl
        | inr (owner, s) ↦ rw (n, rollout_context, s) (revision_same owner)
      ]
    ]

  log_same :
      (pod : Pod) (name : String)
      → default_lines a.log_tail_lines ≡ default_lines b.log_tail_lines
      → log_tail cluster a pod name ≡ log_tail cluster b pod name
  unfolding log_tail default_lines
  log_same pod name e = rw (e, log_tail) refl

-- The evidence of a container is the same with the settings of a reconciler before and after
-- SetupWithManager, whatever they are.
gather_evidence-set_up :
    (cluster : Cluster) (s : Setup) (pod : Pod) (cs : ContainerStatus)
    → gather_evidence cluster (set_up s).settings pod cs ≡ gather_evidence cluster s.settings pod cs
unfolding gather_evidence
gather_evidence-set_up cluster s pod cs =
    let a = (set_up s).settings in
    rw
      (
        rollout_same cluster a s.settings (window-set_up s) pod,
        log_same cluster a s.settings pod cs.name (lines-set_up s),
      )
      refl

-- Every setting is positive once it is set up, and a positive one is as it was configured.
pub set_up_lem :
    (s : Setup)
    → ((pos 1 ≤ℤ (set_up s).settings.log_tail_lines)
        × (pos 1 ≤ℤ s.settings.log_tail_lines
            → (set_up s).settings.log_tail_lines ≡ s.settings.log_tail_lines))
      × ((pos 1 ≤ℤ (set_up s).settings.rollout_window)
          × (pos 1 ≤ℤ s.settings.rollout_window
              → (set_up s).settings.rollout_window ≡ s.settings.rollout_window))
unfolding set_up
set_up_lem s = (
  default_lines_lem s.settings.log_tail_lines,
  default_duration_lem 600 s.settings.rollout_window (omega arith),
)

whole_in_range :
    (q : Float)
    → pos_part q.mantissa < 2 ^ 62 * 2 ^ q.shift
    → ltb (pos_part q.mantissa * 2 / 2 ^ q.shift) (2 ^ 63) ≡ true
whole_in_range q small =
    let k = 2 ^ q.shift in
    let at =
      div-lt_iff_lt-mul {k = k} {x = pos_part q.mantissa * 2} {y = 2 ^ 63}
        (one-le-pow q.shift 2 (omega arith)) in
    let h = at.1 (omega arith) in ground arith

-- For a rate below 2^62, a limiter that the set-up makes lets a request pass, which takes a burst
-- of one at least, exactly when the configured rate is not positive, so that the default of 20 is
-- taken, or at least one in two seconds.
pub burst-set_up :
    (s : Setup)
    → s.limiter ≡ none
    → pos_part s.evidence_qps.mantissa < 2 ^ 62 * 2 ^ s.evidence_qps.shift
    → (burst : ℤ) × ((default_limiter s).burst ≡ some burst)
      × ((pos 1 ≤ℤ burst) ↔ (
          (s.evidence_qps.mantissa ≤ℤ pos 0)
          ⊎ (2 ^ s.evidence_qps.shift ≤ pos_part s.evidence_qps.mantissa * 2)))
unfolding default_limiter burst_of
burst-set_up s e small =
    let q = s.evidence_qps in
    let pass =
      le-div_iff_mul-le {k = 2 ^ q.shift} {x = 1} {y = pos_part q.mantissa * 2}
        (one-le-pow q.shift 2 (omega arith)) in
    elim (Bool-cases (leb_ℤ q.mantissa (pos 0))) [
      | inl t ↦ rw (e, t) (pos 40, refl, ground (arith, leb_ℤ_iff q.mantissa (pos 0)))
      | inr t ↦
          rw (e, t, whole_in_range q small)
            (
              pos (pos_part q.mantissa * 2 / 2 ^ q.shift),
              refl,
              ground (arith, leb_ℤ_iff q.mantissa (pos 0), pass),
            )
    ]
