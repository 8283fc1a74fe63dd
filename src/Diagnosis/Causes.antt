-- ===== src/Diagnosis/Causes.antt =====
-- The primary rules report the root cause that the state of the container gives.
use poddoctor.Prelude.{
  ℕ, String, Bool, true, false, not, List, ◌≡◌, ◌≢◌, ◌↔◌, inl, inr, refl, arith, eq_iff, ◌==◌, ◌||◌,
  ℤ, pos, int_eq, int_eq_iff, any_iff, IsInfix, contains_iff, if_elim,
}
use poddoctor.Text.{bytes, to_lower}
use poddoctor.Api.{EvidenceEvent, RootCause}
use poddoctor.Diagnosis.{
  Evidence, Result, mentions, probe_event, probe_failing, diagnose_exit_code, diagnose_terminated,
  diagnose_primary,
}
use poddoctor.Diagnosis.Signals.{
  IsPullReason, IsStartWaiting, IsStartTerminated, ExitCause, killed, segv, term, command, clean,
  failed, PrimaryCause, pull, start, running, oom, start_error, exit, IsProbeFailure,
  HasProbeFailure,
}

pub mentions_iff :
    (text : List ℕ) (needle : String)
    → (mentions text needle ≡ true) ↔ IsInfix (bytes needle) (to_lower text)
unfolding mentions
mentions_iff text needle = contains_iff (to_lower text) (bytes needle)

probe_event_iff : (e : EvidenceEvent) → (probe_event e ≡ true) ↔ IsProbeFailure e
unfolding probe_event
probe_event_iff e =
    ground (arith, eq_iff e.reason "Unhealthy", mentions_iff (bytes e.message) "probe failed")

pub probe_failing_iff :
    (ev : Evidence) → (probe_failing ev.recent_events ≡ true) ↔ HasProbeFailure ev
unfolding probe_failing
probe_failing_iff ev = any_iff probe_event IsProbeFailure probe_event_iff ev.recent_events

-- From a test on integers or texts to the equation, and to its negation.
int_true : {a b : ℤ} → int_eq a b ≡ true → a ≡ b
int_true {a} {b} h = (int_eq_iff a b).0 h

int_false : {a b : ℤ} → int_eq a b ≡ false → a ≢ b
int_false {a} {b} h e = ground (arith, int_eq_iff a b)

abbrev ExitOf : Evidence → Result → Type 0
ExitOf ev r = ExitCause ev.exit_code r.root_cause

exit_code_sound : (ev : Evidence) → ExitCause ev.exit_code (diagnose_exit_code ev).root_cause
unfolding diagnose_exit_code
exit_code_sound ev =
    if_elim (ExitOf ev) (λ e. killed (int_true e))
      λ n137.
        if_elim (ExitOf ev) (λ e. segv (int_true e))
          λ n139.
            if_elim (ExitOf ev) (λ e. term (int_true e))
              λ n143.
                if_elim (ExitOf ev) (λ e. command (inl (int_true e)))
                  λ n126.
                    if_elim (ExitOf ev) (λ e. command (inr (int_true e)))
                      λ n127.
                        if_elim (ExitOf ev) (λ e. clean (int_true e))
                          λ n0.
                            failed (int_false n137) (int_false n139) (int_false n143)
                              (int_false n126) (int_false n127) (int_false n0)

exit_code_complete :
    (ev : Evidence) {c : RootCause}
    → ExitCause ev.exit_code c
    → (diagnose_exit_code ev).root_cause ≡ c
unfolding diagnose_exit_code
exit_code_complete ev (killed e) = rw e
exit_code_complete ev (segv e) = rw e
exit_code_complete ev (term e) = rw e
exit_code_complete ev (command (inl e)) = rw e
exit_code_complete ev (command (inr e)) = rw e
exit_code_complete ev (clean e) = rw e
exit_code_complete ev (failed a b c d e f) = ground (
  arith,
  int_eq_iff ev.exit_code (pos 137),
  int_eq_iff ev.exit_code (pos 139),
  int_eq_iff ev.exit_code (pos 143),
  int_eq_iff ev.exit_code (pos 126),
  int_eq_iff ev.exit_code (pos 127),
  int_eq_iff ev.exit_code (pos 0),
)

-- The tests of the engine on a reason, and their failure.
module _ (r : String) where
  pull_of_back_off : (r == "ImagePullBackOff" || r == "ErrImagePull") ≡ true → IsPullReason r
  pull_of_back_off h = ground (arith, eq_iff r "ImagePullBackOff", eq_iff r "ErrImagePull")

  not_pull :
      (r == "ImagePullBackOff" || r == "ErrImagePull") ≡ false
      → (r == "InvalidImageName") ≡ false
      → ¬ IsPullReason r
  not_pull h k p =
      ground
        (arith, eq_iff r "ImagePullBackOff", eq_iff r "ErrImagePull", eq_iff r "InvalidImageName")

  start_iff :
      ((r == "RunContainerError"
          || r == "CreateContainerError"
          || r == "CreateContainerConfigError")
        ≡ true)
      ↔ IsStartWaiting r
  start_iff = ground (
    arith,
    eq_iff r "RunContainerError",
    eq_iff r "CreateContainerError",
    eq_iff r "CreateContainerConfigError",
  )

  start_error_iff :
      ((r == "StartError" || r == "CreateContainerError" || r == "CreateContainerConfigError")
        ≡ true)
      ↔ IsStartTerminated r
  start_error_iff = ground (
    arith,
    eq_iff r "StartError",
    eq_iff r "CreateContainerError",
    eq_iff r "CreateContainerConfigError",
  )

pub not_of_false : {b : Bool} {P : Type 0} → (b ≡ true) ↔ P → b ≡ false → ¬ P
not_of_false f e p = cc (f.1 p)

pub false_of_not : {b : Bool} {P : Type 0} → (b ≡ true) ↔ P → ¬ P → b ≡ false
false_of_not {b = true} f n = absurd (n (f.0 refl))
false_of_not {b = false} f n = refl

abbrev PrimaryOf : Evidence → Result → Type 0
PrimaryOf ev r = PrimaryCause ev r.root_cause

not-eq_true : {b : Bool} → not b ≡ true → b ≡ false
not-eq_true h = ground arith

not-eq_false : {b : Bool} → not b ≡ false → b ≡ true
not-eq_false h = ground arith

terminated_sound :
    (ev : Evidence)
    → ¬ IsPullReason ev.waiting_reason
    → ¬ IsStartWaiting ev.waiting_reason
    → PrimaryCause ev (diagnose_terminated ev).root_cause
unfolding diagnose_terminated
terminated_sound ev np ns =
    if_elim (PrimaryOf ev) (λ e. running np ns (not-eq_true e))
      λ t.
        if_elim (PrimaryOf ev) (λ e. oom np ns (not-eq_false t) ((eq_iff _ _).0 e))
          λ a.
            if_elim (PrimaryOf ev)
              (λ e. start_error np ns (not-eq_false t) ((start_error_iff _).0 e))
              λ b.
                exit np ns (not-eq_false t) (not_of_false (eq_iff _ _) a)
                  (not_of_false (start_error_iff _) b) (exit_code_sound ev)

pub primary_sound : (ev : Evidence) → PrimaryCause ev (diagnose_primary ev).root_cause
unfolding diagnose_primary
primary_sound ev =
    if_elim (PrimaryOf ev) (λ e. pull (pull_of_back_off _ e))
      λ a.
        if_elim (PrimaryOf ev) (λ e. pull (inr ((eq_iff _ _).0 e)))
          λ b.
            if_elim (PrimaryOf ev) (λ e. start ((start_iff _).0 e))
              λ c. terminated_sound ev (not_pull _ a b) (not_of_false (start_iff _) c)

-- What the signals determine, the engine computes.
terminated_complete :
    (ev : Evidence) {c : RootCause}
    → PrimaryCause ev c
    → ¬ IsPullReason ev.waiting_reason
    → ¬ IsStartWaiting ev.waiting_reason
    → (diagnose_terminated ev).root_cause ≡ c
unfolding diagnose_terminated
terminated_complete ev (pull h) np ns = absurd (np h)
terminated_complete ev (start h) np ns = absurd (ns h)
terminated_complete ev (running _ _ t) np ns = rw t
terminated_complete ev (oom _ _ t e) np ns = rw (t, e)
terminated_complete ev (start_error _ _ t (inl e)) np ns = rw (t, e)
terminated_complete ev (start_error _ _ t (inr (inl e))) np ns = rw (t, e)
terminated_complete ev (start_error _ _ t (inr (inr e))) np ns = rw (t, e)
terminated_complete ev (exit _ _ t a b x) np ns =
    simp (t, false_of_not (eq_iff _ "OOMKilled") a, false_of_not (start_error_iff _) b)
      (exit_code_complete ev x)

primary_of_terminated :
    (ev : Evidence)
    → ¬ IsPullReason ev.waiting_reason
    → ¬ IsStartWaiting ev.waiting_reason
    → diagnose_primary ev ≡ diagnose_terminated ev
unfolding diagnose_primary
primary_of_terminated ev np ns = rw (
  false_of_not (eq_iff ev.waiting_reason "ImagePullBackOff") (λ e. np (inl (inl e))),
  false_of_not (eq_iff ev.waiting_reason "ErrImagePull") (λ e. np (inl (inr e))),
  false_of_not (eq_iff ev.waiting_reason "InvalidImageName") (λ e. np (inr e)),
  false_of_not (start_iff ev.waiting_reason) ns,
)

pub primary_complete :
    (ev : Evidence) {c : RootCause} → PrimaryCause ev c → (diagnose_primary ev).root_cause ≡ c
unfolding diagnose_primary
primary_complete ev (pull (inl (inl e))) = rw e
primary_complete ev (pull (inl (inr e))) = rw e
primary_complete ev (pull (inr e)) = rw e
primary_complete ev (start (inl e)) = rw e
primary_complete ev (start (inr (inl e))) = rw e
primary_complete ev (start (inr (inr e))) = rw e
primary_complete ev (running a b t) =
    rw (primary_of_terminated ev a b) (terminated_complete ev (running a b t) a b)
primary_complete ev (oom a b t e) =
    rw (primary_of_terminated ev a b) (terminated_complete ev (oom a b t e) a b)
primary_complete ev (start_error a b t e) =
    rw (primary_of_terminated ev a b) (terminated_complete ev (start_error a b t e) a b)
primary_complete ev (exit a b t m n x) =
    rw (primary_of_terminated ev a b) (terminated_complete ev (exit a b t m n x) a b)

ExitCause-ne-probe : {c : ℤ} {r : RootCause} → ExitCause c r → r ≢ RootCause.probe_failure
ExitCause-ne-probe (killed _) e = cc
ExitCause-ne-probe _ e = cc

-- The state of a container alone shows no probe failure.
pub PrimaryCause-ne-probe :
    {ev : Evidence} {c : RootCause} → PrimaryCause ev c → c ≢ RootCause.probe_failure
PrimaryCause-ne-probe (pull _) e = cc
PrimaryCause-ne-probe (start _) e = cc
PrimaryCause-ne-probe (running _ _ _) e = cc
PrimaryCause-ne-probe (oom _ _ _ _) e = cc
PrimaryCause-ne-probe (start_error _ _ _ _) e = cc
PrimaryCause-ne-probe (exit _ _ _ _ _ x) e = ExitCause-ne-probe x e
