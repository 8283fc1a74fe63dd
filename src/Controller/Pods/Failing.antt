-- ===== src/Controller/Pods/Failing.antt =====
-- Which containers of a pod are diagnosed.
use mathlib.Core.List.{◌++◌ as append}
use poddoctor.Prelude.{
  String, Bool, not, is_empty, true, false, some, List, [], ◌∷◌, Any, ◌≡◌, ◌⊎◌, ◌↔◌, inl, inr, refl,
  sym, subst, ap, ◌∙◌, eq_iff, arith, Bool-cases, Option-cases,
}
use poddoctor.Controller.Pods.{
  Waiting, ContainerStatus, Pod, FailingContainer, triggers, is_failing, failing_among,
  find_failing_containers, failing_pod,
}

-- The reasons of README.md, "What Triggers a Diagnosis".
abbrev pub IsTrigger : String → Type 0
IsTrigger r =
    (r ≡ "CrashLoopBackOff")
    ⊎ ((r ≡ "ImagePullBackOff") ⊎ ((r ≡ "ErrImagePull") ⊎ (r ≡ "InvalidImageName")))

-- The container waits for one of them.
abbrev pub IsTriggered : ContainerStatus → Type 0
IsTriggered cs = (w : Waiting) × (cs.waiting ≡ some w) × IsTrigger w.reason

-- Membership.
abbrev pub Among : {A : Type 0} → A → List A → Type 0
Among a xs = Any (λ x. x ≡ a) xs

triggers_iff : (r : String) → (triggers r ≡ true) ↔ IsTrigger r
unfolding triggers
triggers_iff r = ground (
  arith,
  eq_iff r "CrashLoopBackOff",
  eq_iff r "ImagePullBackOff",
  eq_iff r "ErrImagePull",
  eq_iff r "InvalidImageName",
)

is_failing_iff : (cs : ContainerStatus) → (is_failing cs ≡ true) ↔ IsTriggered cs
unfolding is_failing
is_failing_iff cs = elim (Option-cases cs.waiting) [
  | inl e ↦ (λ h. absurd (cc (rw e at h)), λ (w, q, t). absurd (cc (sym e ∙ q)))
  | inr (w, e) ↦ (
    λ h. (w, e, (triggers_iff w.reason).0 (rw e at h)),
    λ (v, q, t). rw q ((triggers_iff v.reason).1 t),
  )
]

module _ (is_init : Bool) (fc : FailingContainer) where
  abbrev pub IsListed : List ContainerStatus → Type 0
  IsListed css = (fc.is_init ≡ is_init) × Among fc.status css × IsTriggered fc.status

  failing_among_lists :
      (css : List ContainerStatus) → Among fc (failing_among is_init css) → IsListed css
  unfolding failing_among
  failing_among_lists [] = λ h. absurd h
  failing_among_lists (cs ∷ rest) = elim (Bool-cases (is_failing cs)) [
    | inl b ↦ rw b (λ h. elim h [
      | inl e ↦ (
        sym (ap (λ x. x.is_init) e),
        inl (ap (λ x. x.status) e),
        subst (λ x. IsTriggered x) (ap (λ x. x.status) e) ((is_failing_iff cs).0 b),
      )
      | inr later ↦ let (i, m, t) = failing_among_lists rest later in (i, inr m, t)
    ])
    | inr b ↦ rw b (λ h. let (i, m, t) = failing_among_lists rest h in (i, inr m, t))
  ]

  listed_head :
      (cs : ContainerStatus)
      → fc.is_init ≡ is_init
      → cs ≡ fc.status
      → ◌≡◌ {A = FailingContainer} (record { status = cs; is_init = is_init }) fc
  listed_head cs i e =
      ap (λ c. record { status = c; is_init = is_init }) e
      ∙ ap (λ b. record { status = fc.status; is_init = b }) (sym i)

  lists-failing_among :
      (css : List ContainerStatus) → IsListed css → Among fc (failing_among is_init css)
  unfolding failing_among
  lists-failing_among [] (i, m, t) = absurd m
  lists-failing_among (cs ∷ rest) (i, inl e, t) =
      rw ((is_failing_iff cs).1 (subst (λ x. IsTriggered x) (sym e) t)) (inl (listed_head cs i e))
  lists-failing_among (cs ∷ rest) (i, inr m, t) =
      let later = lists-failing_among rest (i, m, t) in
      elim (Bool-cases (is_failing cs)) [ inl b ↦ rw b (inr later) | inr b ↦ rw b later ]

Any-append :
    {A : Type 0} (P : A → Type 0) (xs ys : List A) → Any P (append xs ys) ↔ (Any P xs ⊎ Any P ys)
Any-append P [] ys = (λ h. inr h, λ h. elim h [ inl n ↦ absurd n | inr k ↦ k ])
Any-append P (x ∷ xs) ys =
    let (there, back) = Any-append P xs ys in
    (
      λ h. elim h [
        | inl p ↦ inl (inl p)
        | inr k ↦ elim (there k) [ inl l ↦ inl (inr l) | inr l ↦ inr l ]
      ],
      λ h. elim h [
        | inl k ↦ elim k [ inl p ↦ inl p | inr l ↦ inr (back (inl l)) ]
        | inr l ↦ inr (back (inr l))
      ],
    )

IsListed-iff :
    (pod : Pod) (fc : FailingContainer)
    → Among fc (find_failing_containers pod)
      ↔ (IsListed true fc pod.init_statuses ⊎ IsListed false fc pod.statuses)
unfolding find_failing_containers
IsListed-iff pod fc =
    let (there, back) =
      Any-append (λ x. x ≡ fc) (failing_among true pod.init_statuses)
        (failing_among false pod.statuses) in
    (
      λ h. elim (there h) [
        | inl k ↦ inl (failing_among_lists true fc pod.init_statuses k)
        | inr k ↦ inr (failing_among_lists false fc pod.statuses k)
      ],
      λ h. back (elim h [
        | inl k ↦ inl (lists-failing_among true fc pod.init_statuses k)
        | inr k ↦ inr (lists-failing_among false fc pod.statuses k)
      ]),
    )

Among-some :
    (fcs : List FailingContainer)
    → (not (is_empty fcs) ≡ true) ↔ ((fc : FailingContainer) × Among fc fcs)
Among-some [] = (λ e. absurd (cc e), λ (fc, h). absurd h)
Among-some (fc ∷ rest) = (λ e. (fc, inl refl), λ h. refl)

-- findFailingContainers lists a container as an init container exactly if its status is among the
-- init container statuses of the pod and waits for one of the four documented reasons, and as
-- another container exactly if its status is among the container statuses and waits for one of
-- them; the predicate on events lets a pod pass exactly if it lists one.
pub find_failing_containers_iff :
    (pod : Pod)
    → ((fc : FailingContainer)
        → Among fc (find_failing_containers pod)
          ↔ (IsListed true fc pod.init_statuses ⊎ IsListed false fc pod.statuses))
      × ((failing_pod pod ≡ true)
          ↔ ((fc : FailingContainer) × Among fc (find_failing_containers pod)))
unfolding failing_pod
find_failing_containers_iff pod =
    (λ fc. IsListed-iff pod fc, Among-some (find_failing_containers pod))
