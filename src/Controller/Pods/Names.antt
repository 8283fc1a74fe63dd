-- ===== src/Controller/Pods/Names.antt =====
-- The names of diagnoses.
use Prim.Native.String.{◌++◌}
use text.Mathlib.TextLemmas.{append_assoc}
use poddoctor.Prelude.{String, ◌≡◌, sym, ap, ◌∙◌}
use poddoctor.Controller.Pods.{diagnosis_name}

-- A container b-c of a pod a and a container c of a pod a-b have PodDiagnosis objects of one
-- name.
pub diagnosis_name_collides :
    (a b c : String) → diagnosis_name a (b ++ ("-" ++ c)) ≡ diagnosis_name (a ++ ("-" ++ b)) c
unfolding diagnosis_name
diagnosis_name_collides a b c =
    sym (append_assoc a ("-" ++ b) ("-" ++ c) ∙ ap (λ t. a ++ t) (append_assoc "-" b ("-" ++ c)))
