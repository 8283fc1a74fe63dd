-- ===== src/Controller/Reconcile/Groups.antt =====
-- The groups of notifications: a namespace and a root cause.
use Prim.Native.String.{◌++◌}
use text.Mathlib.TextLemmas.{nil-append, cons-append}
use poddoctor.Prelude.{
  String, true, List, [], ◌∷◌, ◌≡◌, ◌≢◌, ◌⊎◌, inl, inr, refl, sym, ap, ◌∙◌, Bool-cases,
}
use poddoctor.Text.Laws.{test_of_ne}
use poddoctor.Text.Split.{split, not_sep, each, split-append, split-plain}
use poddoctor.Api.{RootCause, cause_name, PodDiagnosis}
use poddoctor.Api.Laws.{cause_name-injective}
use poddoctor.Diagnosis.{Result}
use poddoctor.AlertGroup.{lookup, observe}
use poddoctor.AlertGroup.History.{observe_other}
use poddoctor.Notify.Router.{route}
use poddoctor.Controller.Pods.{Pod}
use poddoctor.Controller.Reconcile.{Env, Reconciler, State, notify}

-- The key that the reconciler gives the grouper.
abbrev pub group_key : String → RootCause → String
group_key namespace cause = namespace ++ ("/" ++ cause_name cause)

-- Names of namespaces have no slash.
abbrev pub HasNoSlash : String → Type 0
HasNoSlash s = each (not_sep b'/') s ≡ true

cause_name-HasNoSlash : (c : RootCause) → HasNoSlash (cause_name c)
unfolding cause_name
cause_name-HasNoSlash RootCause.oom_killed = refl
cause_name-HasNoSlash _ = refl

split-group_key :
    (m : String) (c : RootCause) → HasNoSlash m → split b'/' (group_key m c) ≡ m ∷ cause_name c ∷ []
split-group_key m c h =
    ap (λ x. split b'/' (m ++ x))
      (cons-append "/" "" (cause_name c) ∙ ap (λ x. String.◌∷◌ "/" x) (nil-append (cause_name c)))
    ∙ split-append "/" m (cause_name c) h
    ∙ ap (λ r. m ∷ r) (split-plain "/" (cause_name c) (cause_name-HasNoSlash c))

heads : List String → String × String
heads (a ∷ b ∷ r) = (a, b)
heads _ = ("", "")

group_key-injective :
    (m n : String) (c d : RootCause)
    → HasNoSlash m
    → HasNoSlash n
    → group_key m c ≡ group_key n d
    → (m ≡ n) × (c ≡ d)
unfolding heads
group_key-injective m n c d h k e =
    let same = ap heads (sym (split-group_key m c h) ∙ ap (split b'/') e ∙ split-group_key n d k) in
    (ap (λ x. x.0) same, cause_name-injective c d (ap (λ x. x.1) same))

-- Where names of namespaces have no slash, a notification leaves the alert groups of other
-- namespaces, and of other root causes, as they are.
pub notify-lookup :
    {W : Type 0} (env : Env W) (r : Reconciler) (pod : Pod) (result : Result) (d : PodDiagnosis)
    (s : State W) (namespace : String) (cause : RootCause)
    → HasNoSlash pod.namespace
    → HasNoSlash namespace
    → (pod.namespace ≢ namespace) ⊎ (result.root_cause ≢ cause)
    → lookup (group_key namespace cause) (notify env r pod result d s).grouper.state
      ≡ lookup (group_key namespace cause) s.grouper.state
unfolding notify
notify-lookup env r pod result d s namespace cause h k other =
    let key = group_key pod.namespace result.root_cause in
    let apart = test_of_ne key (group_key namespace cause) (λ e.
      let (m, c) = group_key-injective _ _ _ _ h k e in elim other [ inl n ↦ n m | inr n ↦ n c ]) in
    let kept = observe_other s.grouper key (env.now s.world) (group_key namespace cause) apart in
    elim (Bool-cases (route r.notify_router pod.namespace).ok) [
      | inr e ↦ rw e refl
      | inl e ↦ elim (Bool-cases (observe s.grouper key (env.now s.world)).0.ok) [
        | inr q ↦ rw (e, q) kept
        | inl q ↦ rw (e, q) kept
      ]
    ]
