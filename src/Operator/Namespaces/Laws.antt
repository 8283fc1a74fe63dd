-- ===== src/Operator/Namespaces/Laws.antt =====
-- The namespaces of a flag are those that it lists.
use Prim.Native.Char.{code}
use Prim.Native.String.{◌++◌}
use text.Mathlib.TextLemmas.{nil-append, cons-append}
use poddoctor.Prelude.{
  ℕ, String, Bool, true, false, ◌||◌, some, List, [], ◌∷◌, ◌≡◌, refl, ap, ◌∙◌, ◌==◌, eq_iff, map,
  arith, Bool-cases, inl, inr, All,
}
use poddoctor.Text.{join}
use poddoctor.Text.Laws.{append-test_left, append-test_right}
use poddoctor.Text.Split.{
  split, is_space, not_space, not_sep, each, trim_space, split-plain, split-append, trim_space_lem,
}
use poddoctor.Operator.Namespaces.{member, insert, collect, watched}

-- A namespace as the flag lists it, with spaces around it.
pub record Listed : Type 0 where
  pub before : String
  pub name : String
  pub after : String

abbrev pub text_of : Listed → String
text_of l = l.before ++ (l.name ++ l.after)

-- The name has a character, and neither a space nor a comma.
pub record IsListed (l : Listed) : Type 0 where
  pub spaces_before : each is_space l.before ≡ true
  pub named : (l.name == "") ≡ false
  pub solid : each not_space l.name ≡ true
  pub single : each (not_sep b',') l.name ≡ true
  pub spaces_after : each is_space l.after ≡ true

each-append :
    (p : ℕ → Bool) (s t : String) → each p s ≡ true → each p t ≡ true → each p (s ++ t) ≡ true
each-append p String.[] t h k = rw nil-append k
each-append p (String.◌∷◌ c s) t h k = rw cons-append (ground (arith, each-append p s t))

not_comma : (c : ℕ) → is_space c ≡ true → not_sep b',' c ≡ true
unfolding is_space
not_comma c h = ground arith

spaces_single : (s : String) → each is_space s ≡ true → each (not_sep b',') s ≡ true
spaces_single String.[] h = refl
spaces_single (String.◌∷◌ c s) h = ground (arith, spaces_single s, not_comma (code c))

text-single : (l : Listed) → IsListed l → each (not_sep b',') (text_of l) ≡ true
text-single l v =
    each-append (not_sep b',') l.before _ (spaces_single l.before v.spaces_before)
      (each-append (not_sep b',') l.name _ v.single (spaces_single l.after v.spaces_after))

text-trimmed : (l : Listed) → IsListed l → trim_space (text_of l) ≡ l.name
text-trimmed l v =
    trim_space_lem l.before l.name l.after v.spaces_before v.named v.solid v.spaces_after

-- The flag splits into what was joined.
split-join :
    (l : Listed) (ls : List Listed)
    → IsListed l
    → All IsListed ls
    → split b',' (join (map text_of (l ∷ ls)) ",") ≡ map text_of (l ∷ ls)
unfolding join
split-join l [] v vs = split-plain "," (text_of l) (text-single l v)
split-join l (m ∷ ls) v (w, vs) =
    let rest = join (map text_of (m ∷ ls)) "," in
    ap (λ x. split b',' (text_of l ++ x))
      (cons-append "," "" rest ∙ ap (λ x. String.◌∷◌ "," x) (nil-append rest))
    ∙ split-append "," (text_of l) rest (text-single l v)
    ∙ ap (λ r. text_of l ∷ r) (split-join m ls w vs)

member-insert :
    (ns name : String) (keys : List String)
    → member ns (insert name keys) ≡ (name == ns || member ns keys)
unfolding insert
member-insert ns name keys = elim (Bool-cases (member name keys)) [
  | inr n ↦ rw n refl
  | inl k ↦ elim (Bool-cases (name == ns)) [
    | inr n ↦ rw (k, n) refl
    | inl e ↦ rw (k, e, ← (eq_iff name ns).0 e) k
  ]
]

-- The names that are collected are those of the list and those that were there.
member-collect :
    (ns : String) (ls : List Listed) (keys : List String)
    → All IsListed ls
    → member ns (collect (map text_of ls) keys)
      ≡ (member ns (map (λ l. l.name) ls) || member ns keys)
unfolding collect
member-collect ns [] keys v = refl
member-collect ns (l ∷ ls) keys (v, vs) =
    rw (collect, text-trimmed l v, v.named)
      (member-collect ns ls (insert l.name keys) vs
        ∙ rw (member-insert ns l.name keys) (ground arith))

listed_some :
    (l : Listed) (ls : List Listed) → IsListed l → (join (map text_of (l ∷ ls)) "," == "") ≡ false
unfolding join
listed_some l [] v = append-test_right l.before _ (append-test_left l.name l.after v.named)
listed_some l (m ∷ ls) v =
    append-test_left (text_of l) _
      (append-test_right l.before _ (append-test_left l.name l.after v.named))

-- A --namespace flag that lists namespaces between commas, each without spaces and commas but
-- with spaces around it or none, has the cache watch exactly those.
pub watched_lem :
    (l : Listed) (ls : List Listed)
    → IsListed l
    → All IsListed ls
    → (keys : List String) × (watched (join (map text_of (l ∷ ls)) ",") ≡ some keys)
      × ((ns : String) → member ns keys ≡ member ns (map (λ x. x.name) (l ∷ ls)))
unfolding watched
watched_lem l ls v vs =
    let keys = collect (map text_of (l ∷ ls)) [] in
    (
      keys,
      rw (listed_some l ls v, split-join l ls v vs) refl,
      λ ns. member-collect ns (l ∷ ls) [] (v, vs) ∙ ground arith,
    )
