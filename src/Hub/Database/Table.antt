-- ===== src/Hub/Database/Table.antt =====
-- The two statements of internal/hub/store.go over a table that keeps the rows, newest first: what List
-- answers, as a function of what Insert has stored.
use Prim.Native.String.{◌++◌}
use mathlib.Core.List.{◌++◌ as append}
use poddoctor.Prelude.{
  suc, String, Bool, true, false, ◌&&◌, ◌||◌, Option, none, some, List, [], ◌∷◌, ◌≡◌, refl, sym, ap,
  ◌∙◌, ◌==◌, ℤ, pos, pos_part, length, map, take, if◌then◌else◌, Bool-cases, inl, inr, arith,
}
use mathlib.Core.Option.{some-injective}
use poddoctor.Text.{decimal}
use poddoctor.Api.{Time}
use poddoctor.Hub.Store.{Diagnosis, Filter, list_limit}
use poddoctor.Hub.Query.{Arg, text, number, Query, select, list_query}
use poddoctor.Hub.Query.Conditions.{wanted, conditions_of, numbered, list_query_lem}
use poddoctor.Hub.Database.{Database, insert_query, scan_row, scan_rows, then_scan, store_of}
use poddoctor.Hub.Database.Rows.{inserted_columns, column, stored_row, scan_row-insert_query}

-- Those of a list that pass a test, in order.
abbrev pub filter {ℓ} : {A : Type ℓ} → (A → Bool) → List A → List A
filter p [] = []
filter p (x ∷ xs) = if p x then x ∷ filter p xs else filter p xs

-- A column of the row of a diagnosis, and all the columns that a listing asks for.
abbrev pub cell : Diagnosis → String → Arg
cell d = column d.id d.received_at inserted_columns (insert_query d).args

abbrev pub row : Diagnosis → List Arg
row d = stored_row d.id d.received_at d

-- `column = value` of a statement, and several of them.
abbrev is_text : Arg → String → Bool
is_text (text s) value = s == value
is_text _ value = false

abbrev pub meets : List (String × String) → Diagnosis → Bool
meets [] d = true
meets ((name, value) ∷ rest) d = is_text (cell d name) value && meets rest d

-- The table as the two statements see it: an insertion that succeeds puts its row, with an id and a time
-- of the database, before those that are there, and the text of a listing with numbered conditions,
-- newest first and limited, selects the first rows that meet them.
pub record IsTable {W : Type 0} (db : Database W) (table : W → List Diagnosis) : Type 0 where
  pub inserted :
      (d : Diagnosis) (w : W)
      → (db.exec (insert_query d) w).0 ≡ true
      → (id : ℤ) × (at : Time) × (table (db.exec (insert_query d) w).1
          ≡ record d { id = id; received_at = at } ∷ table w)
  pub selected :
      (conditions : List (String × String)) (limit : ℤ) (q : Query) (w : W) (rows : List (List Arg))
      → q.args ≡ append (map (λ (name, value). text value) conditions) (number limit ∷ [])
      → q.sql
        ≡ select
          ++ (numbered 1 conditions
              ++ (" ORDER BY received_at DESC LIMIT $" ++ decimal (pos (suc (length conditions)))))
      → (db.query q w).0 ≡ some rows
      → rows ≡ map row (take (pos_part limit) (filter (meets conditions) (table w)))

-- What a filter keeps: where one of its fields is set, the diagnosis has its value.
abbrev unset_or : String → String → Bool
unset_or value s = value == "" || s == value

abbrev pub matches : Filter → Diagnosis → Bool
matches f d =
    unset_or f.cluster d.cluster
    && (unset_or f.namespace d.namespace && unset_or f.root_cause d.root_cause)

meets-append :
    (xs ys : List (String × String)) (d : Diagnosis)
    → meets (append xs ys) d ≡ (meets xs d && meets ys d)
meets-append [] ys d = refl
meets-append ((name, value) ∷ xs) ys d = ground (arith, meets-append xs ys d)

meets-wanted :
    (name value s : String) (d : Diagnosis)
    → cell d name ≡ text s
    → meets (wanted name value) d ≡ unset_or value s
meets-wanted name value s d e = elim (Bool-cases (value == "")) [
  | inl b ↦ rw b
  | inr b ↦ rw (b, e) (ground arith)
]

meets-conditions_of : (f : Filter) (d : Diagnosis) → meets (conditions_of f) d ≡ matches f d
unfolding insert_query
meets-conditions_of f d =
    meets-append (wanted "cluster" f.cluster) _ d
    ∙ rw
        (
          meets-append (wanted "namespace" f.namespace) (wanted "root_cause" f.root_cause) d,
          meets-wanted "cluster" f.cluster d.cluster d refl,
          meets-wanted "namespace" f.namespace d.namespace d refl,
          meets-wanted "root_cause" f.root_cause d.root_cause d refl,
        )
        refl

scan_rows-first :
    (first : List Arg) (rest : List (List Arg)) (d : Diagnosis) (ds : List Diagnosis)
    → scan_row first ≡ some d
    → scan_rows rest ≡ some ds
    → scan_rows (first ∷ rest) ≡ some (d ∷ ds)
unfolding scan_rows
scan_rows-first first rest d ds e f = rw (scan_rows, e, f) refl

pub scan_rows-row : (ds : List Diagnosis) → scan_rows (map row ds) ≡ some ds
unfolding scan_rows
scan_rows-row [] = refl
scan_rows-row (d ∷ ds) =
    scan_rows-first (row d) (map row ds) d ds (scan_row-insert_query d.id d.received_at d).2
      (scan_rows-row ds)

filter-same :
    (p q : Diagnosis → Bool) (xs : List Diagnosis)
    → ((d : Diagnosis) → p d ≡ q d)
    → filter p xs ≡ filter q xs
filter-same p q [] h = refl
filter-same p q (x ∷ xs) h = rw (h x, filter-same p q xs h) refl

module _ {W : Type 0} (db : Database W) (table : W → List Diagnosis) (laws : IsTable db table) where
  -- The listing of a filter.
  abbrev pub listing : Filter → W → List Diagnosis
  listing f w = take (pos_part (list_limit f)) (filter (matches f) (table w))

  scanned :
      (f : Filter) (w : W) (answer : Option (List (List Arg))) (ds : List Diagnosis)
      → (db.query (list_query f) w).0 ≡ answer
      → then_scan answer ≡ some ds
      → ds ≡ listing f w
  scanned f w none ds q e = cc
  scanned f w (some rows) ds q e =
      let (args, sql) = list_query_lem f in
      let same = laws.selected (conditions_of f) (list_limit f) (list_query f) w rows args sql q in
      some-injective _ _ (sym e ∙ (ap scan_rows same ∙ scan_rows-row _))
      ∙ ap (take (pos_part (list_limit f)))
          (filter-same (meets (conditions_of f)) (matches f) (table w) (meets-conditions_of f))

  pub list_lem :
      (f : Filter) (w : W) (ds : List Diagnosis)
      → ((store_of db).list f w).0 ≡ some ds
      → ds ≡ listing f w
  unfolding store_of
  list_lem f w ds e = scanned f w _ ds refl e
