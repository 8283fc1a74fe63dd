-- ===== src/Hub/Database/Memory.antt =====
-- A database with a table in memory, which answers listings without conditions, for the store of
-- internal/hub/store.go.
use mathlib.Core.List.{◌++◌ as append}
use poddoctor.Prelude.{
  String, Bool, true, false, Option, none, some, List, [], ◌∷◌, ◌≡◌, refl, sym, ap, ◌∙◌, ℤ, pos,
  pos_part, map, take,
}
use mathlib.Core.Option.{some-injective}
use poddoctor.Hub.Store.{Diagnosis}
use poddoctor.Hub.Query.{Arg, number, text, Query}
use poddoctor.Hub.Database.{Database, scan_row}
use poddoctor.Hub.Database.Rows.{inserted_columns, selected_columns, column, scan_row-insert_query}
use poddoctor.Hub.Database.Table.{IsTable, row, filter, meets}

-- The row that an insertion brings, with id 7 and time 99.
abbrev pub scanned : List Arg → Option Diagnosis
scanned args = scan_row (map (column (pos 7) 99 inserted_columns args) selected_columns)

abbrev pub kept : Option Diagnosis → List Diagnosis → Bool × List Diagnosis
kept none rows = (false, rows)
kept (some d) rows = (true, d ∷ rows)

abbrev pub answered : List Arg → List Diagnosis → Option (List (List Arg))
answered (number n ∷ []) rows = some (map row (take (pos_part n) rows))
answered _ rows = none

abbrev pub database : Database (List Diagnosis)
database = record {
  ping = λ rows. (true, rows);
  exec = λ q rows. kept (scanned q.args) rows;
  query = λ q rows. (answered q.args rows, rows);
  close = λ rows. (true, rows);
}

filter_all : (rows : List Diagnosis) → filter (λ _. true) rows ≡ rows
filter_all [] = refl
filter_all (d ∷ rows) = ap (λ x. d ∷ x) (filter_all rows)

answered_lem :
    (conditions : List (String × String)) (limit : ℤ) (q : Query) (w : List Diagnosis)
    (rows : List (List Arg))
    → q.args ≡ append (map (λ (name, value). text value) conditions) (number limit ∷ [])
    → answered q.args w ≡ some rows
    → rows ≡ map row (take (pos_part limit) (filter (meets conditions) w))
answered_lem [] limit q w rows a e =
    sym (some-injective _ _ (sym (ap (λ x. answered x w) a) ∙ e))
    ∙ ap (λ x. map row (take (pos_part limit) x)) (sym (filter_all w))
answered_lem ((name, value) ∷ rest) limit q w rows a e =
    absurd (cc (sym (ap (λ x. answered x w) a) ∙ e))

pub database-IsTable : IsTable database (λ rows. rows)
database-IsTable = record {
  inserted = λ d w _. (pos 7, 99, ap (λ o. (kept o w).1) (scan_row-insert_query (pos 7) 99 d).2);
  selected = λ conditions limit q w rows a _ e. answered_lem conditions limit q w rows a e;
}
