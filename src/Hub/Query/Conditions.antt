-- ===== src/Hub/Query/Conditions.antt =====
-- The conditions of the query of List (internal/hub/store.go).
use Prim.Native.String.{◌++◌}
use mathlib.Core.List.{◌++◌ as append, append-nil as no_more, append_assoc as all_assoc}
use package.text.Mathlib.TextLemmas.{nil-append, append-nil, append_assoc}
use poddoctor.Prelude.{
  ℕ, suc, String, sym, ap, subst, ◌∙◌, ◌+◌, arith, List, [], ◌∷◌, ◌≡◌, refl, ◌==◌, pos, length, map,
  Bool-cases, inl, inr, if◌then◌else◌,
}
use poddoctor.Text.{decimal}
use poddoctor.Hub.Store.{Filter, list_limit}
use poddoctor.Hub.Query.{Arg, text, number, Query, select, with_arg, with_filter, list_query}

-- The columns that a filter sets, with their values.
abbrev pub wanted : String → String → List (String × String)
wanted column value = if value == "" then [] else (column, value) ∷ []

abbrev pub conditions_of : Filter → List (String × String)
conditions_of f =
    append (wanted "cluster" f.cluster)
      (append (wanted "namespace" f.namespace) (wanted "root_cause" f.root_cause))

-- The conditions, numbered from `n`.
abbrev pub numbered : ℕ → List (String × String) → String
numbered n [] = ""
numbered n ((column, value) ∷ rest) =
    " AND " ++ (column ++ (" = $" ++ (decimal (pos n) ++ numbered (suc n) rest)))

numbered_last :
    (n : ℕ) (cs : List (String × String)) (column value : String)
    → numbered n (append cs ((column, value) ∷ []))
      ≡ numbered n cs ++ (" AND " ++ (column ++ (" = $" ++ decimal (pos (length cs + n)))))
numbered_last n [] column value =
    let e : n ≡ 0 + n = omega arith in
    ap (λ s. " AND " ++ (column ++ (" = $" ++ s))) (append-nil (decimal (pos n)))
    ∙ (ap (λ m. " AND " ++ (column ++ (" = $" ++ decimal (pos m)))) e ∙ sym (nil-append _))
numbered_last n ((c, v) ∷ cs) column value =
    let e : length cs + suc n ≡ suc (length cs) + n = omega arith in
    rw (numbered_last (suc n) cs column value, e) (simp append_assoc refl)

-- A query with conditions, and no limit yet.
record HasConditions (cs : List (String × String)) (q : Query) : Type 0 where
  args : q.args ≡ map (λ (column, value). text value) cs
  sql : q.sql ≡ select ++ numbered 1 cs

map_last :
    (cs : List (String × String)) (column value : String)
    → append (map (λ (column, value). text value) cs) (text value ∷ [])
      ≡ map (λ (column, value). text value) (append cs ((column, value) ∷ []))
map_last [] column value = refl
map_last ((c, v) ∷ cs) column value = ap (λ x. text v ∷ x) (map_last cs column value)

length_last : (xs : List Arg) (x : Arg) → length (append xs (x ∷ [])) ≡ suc (length xs)
length_last [] x = refl
length_last (y ∷ xs) x = ap suc (length_last xs x)

length-texts :
    (cs : List (String × String)) → length (map (λ (column, value). text value) cs) ≡ length cs
length-texts [] = refl
length-texts (c ∷ cs) = ap suc (length-texts cs)

-- The number of an argument behind those of the conditions.
next_number :
    (cs : List (String × String)) (q : Query) (x : Arg)
    → HasConditions cs q
    → length (append q.args (x ∷ [])) ≡ suc (length cs)
next_number cs q x h = length_last q.args x ∙ ap suc (ap length h.args ∙ length-texts cs)

filter-HasConditions :
    (column value clause : String)
    → clause ≡ " AND " ++ (column ++ " = $")
    → (cs : List (String × String)) (q : Query) → HasConditions cs q
    → HasConditions (append cs (wanted column value)) (with_filter clause value q)
unfolding with_filter with_arg
filter-HasConditions column value clause e cs q h = elim (Bool-cases (value == "")) [
  | inl b ↦ rw (b, no_more cs) h
  | inr b ↦ rw b (record {
    args = ap (λ a. append a (text value ∷ [])) h.args ∙ map_last cs column value;
    sql =
        rw (h.sql, e, next_number cs q (text value) h, numbered_last 1 cs column value)
          (let m : length cs + 1 ≡ suc (length cs) = omega arith in rw m (simp append_assoc refl));
  })
]

limit_lem :
    (clause : String) (x : Arg) (cs : List (String × String)) (q : Query)
    → HasConditions cs q
    → ((with_arg clause x q).args ≡ append (map (λ (column, value). text value) cs) (x ∷ []))
      × ((with_arg clause x q).sql
          ≡ select ++ (numbered 1 cs ++ (clause ++ decimal (pos (suc (length cs))))))
unfolding with_arg
limit_lem clause x cs q h = (
  ap (λ a. append a (x ∷ [])) h.args,
  rw (h.sql, next_number cs q x h) (append_assoc select (numbered 1 cs) _),
)

-- The query of List asks, for each column that the filter sets and for no other, that it equals
-- the placeholder of its own value; the arguments are these values in order, and the last is the
-- limit.
pub list_query_lem :
    (f : Filter)
    → ((list_query f).args
        ≡ append
            (map (λ (column, value). text value) (conditions_of f))
            (number (list_limit f) ∷ []))
      × ((list_query f).sql
          ≡ select
            ++ (numbered 1 (conditions_of f)
                ++ (" ORDER BY received_at DESC LIMIT $"
                    ++ decimal (pos (suc (length (conditions_of f)))))))
unfolding list_query
list_query_lem f =
    let filtered : Query = with_filter " AND root_cause = $" f.root_cause (
      with_filter " AND namespace = $" f.namespace
        (with_filter " AND cluster = $" f.cluster (record { sql = select; args = [] }))) in
    let one =
      filter-HasConditions "cluster" f.cluster " AND cluster = $" refl [] _
        (record { args = refl; sql = sym (append-nil select) }) in
    let two = filter-HasConditions "namespace" f.namespace " AND namespace = $" refl _ _ one in
    let three = filter-HasConditions "root_cause" f.root_cause " AND root_cause = $" refl _ _ two in
    limit_lem " ORDER BY received_at DESC LIMIT $" (number (list_limit f)) (conditions_of f) _
      (subst (λ cs. HasConditions cs filtered) (all_assoc (wanted "cluster" f.cluster) _ _) three)
