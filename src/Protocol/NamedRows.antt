-- ===== src/Protocol/NamedRows.antt =====
-- src/protocol/response.rs: which terse rows `named_rows_from_wire` accepts, and the maps it makes.
use mapepire_rs.Prelude.{
  ℕ, ◌+◌, ◌≤◌, ◌≡◌, refl, subst, ◌∙◌, String, Bool, true, false, ◌&&◌, not, Option, none, some,
  List, [], ◌∷◌, arith, ltb, leb, length, if◌then◌else◌, Result, ok, err, is_ok, ◌>>=◌,
}
use mapepire_rs.Prelude.Text.{str_eq}
use mapepire_rs.Protocol.Json.{Value, array, object, Fields, end, get, insert, get-insert, to_list}
use mapepire_rs.Protocol.Response.{Column}
use mapepire_rs.Protocol.Response.Rows.{name_cells, terse_row, named_row, named_rows}

abbrev is_nil : List Column → Bool
is_nil [] = true
is_nil (c ∷ cs) = false

-- The last cell that stands under a column of the name.
abbrev pub last_cell : String → List Column → List Value → Option Value
last_cell k [] cells = none
last_cell k (c ∷ cs) [] = none
last_cell k (c ∷ cs) (v ∷ vs) =
    let rest = last_cell k cs vs in
    elim rest [ some w ↦ some w | none ↦ if str_eq c.name k then some v else none ]

abbrev or_else : Option Value → Option Value → Option Value
or_else (some w) d = some w
or_else none d = d

name_cells-ok :
    (idx i : ℕ) (columns : List Column) (cells : List Value) (row : Fields)
    → length cells ≤ length columns
    → is_ok (name_cells idx i columns cells row) ≡ true
unfolding name_cells
name_cells-ok idx i columns [] row h = refl
name_cells-ok idx i [] (v ∷ vs) row h = absurd (omega arith)
name_cells-ok idx i (c ∷ cs) (v ∷ vs) row h =
    name_cells-ok idx (i + 1) cs vs (insert c.name v row) (omega arith)

-- A terse row is accepted exactly when there are column names at all and no more cells than
-- columns.
pub terse_row_accepts :
    (idx : ℕ) (columns : List Column) (cells : List Value)
    → is_ok (terse_row idx columns cells)
      ≡ not (is_nil columns) && leb (length cells) (length columns)
unfolding terse_row
terse_row_accepts idx [] cells = refl
terse_row_accepts idx (c ∷ cs) cells = ground (arith, name_cells-ok idx 0 (c ∷ cs) cells end)

get-name_cells :
    (k : String) (idx i : ℕ) (columns : List Column) (cells : List Value) (row out : Fields)
    → name_cells idx i columns cells row ≡ ok out
    → get k out ≡ or_else (last_cell k columns cells) (get k row)
unfolding name_cells
get-name_cells k idx i [] [] row out h = cc
get-name_cells k idx i (c ∷ cs) [] row out h = cc
get-name_cells k idx i [] (v ∷ vs) row out h = absurd (cc)
get-name_cells k idx i (c ∷ cs) (v ∷ vs) row out h = ground (
  arith,
  get-name_cells k idx (i + 1) cs vs (insert c.name v row) out h,
  get-insert c.name k v row,
)

or_else-none : (o : Option Value) → or_else o none ≡ o
or_else-none none = refl
or_else-none (some w) = refl

accepted_branch :
    (b : Bool) (message : String) (x : Result Fields String) (row : Fields)
    → (if b then err message else x) ≡ ok row
    → x ≡ ok row
accepted_branch true message x row h = absurd (cc)
accepted_branch false message x row h = h

get-terse_row :
    (k : String) (idx : ℕ) (columns : List Column) (cells : List Value) (row : Fields)
    → terse_row idx columns cells ≡ ok row
    → get k row ≡ last_cell k columns cells
unfolding terse_row get
get-terse_row k idx [] cells row h = absurd (cc)
get-terse_row k idx (c ∷ cs) cells row h =
    get-name_cells k idx 0 (c ∷ cs) cells end row
      (accepted_branch (ltb (length (c ∷ cs)) (length cells)) _ _ row h)
    ∙ or_else-none (last_cell k (c ∷ cs) cells)

-- The row of a daemon as a map: what each name is bound to.
abbrev pub cell_of : String → List Column → Value → Option Value
cell_of k columns (object fs) = get k fs
cell_of k columns (array vs) = last_cell k columns (to_list vs)
cell_of k columns _ = none

abbrev pub RowsMatch : List Column → List Value → List Fields → Type 0
RowsMatch columns [] [] = Unit {0}
RowsMatch columns (v ∷ vs) (row ∷ rows) =
    ((k : String) → get k row ≡ cell_of k columns v) × RowsMatch columns vs rows
RowsMatch columns _ _ = ⊥

get-named_row :
    (display : Value → String) (k : String) (idx : ℕ) (columns : List Column) (v : Value)
    (row : Fields)
    → named_row display idx columns v ≡ ok row
    → get k row ≡ cell_of k columns v
unfolding named_row
get-named_row display k idx columns (object fs) row h = cc
get-named_row display k idx columns (array vs) row h =
    get-terse_row k idx columns (to_list vs) row h
get-named_row display k idx columns _ row h = absurd (cc)

-- Two results in a row that end well were both well.
both_ok :
    (first : Result Fields String) (others : Result (List Fields) String) (rows : List Fields)
    → (first >>= λ f. others >>= λ o. ok (f ∷ o)) ≡ ok rows
    → (f : Fields) × (o : List Fields) × (first ≡ ok f) × (others ≡ ok o) × (f ∷ o ≡ rows)
both_ok (ok f) (ok o) rows h = (f, o, refl, refl, cc)
both_ok (ok f) (err e) rows h = absurd (cc)
both_ok (err e) others rows h = absurd (cc)

-- When the rows of a result are read, there is one map for each row on the wire, in order. An
-- object is read as it is; in a terse array each column name is bound to the last cell that
-- stands under it, and a name without a cell is absent.
pub rows_match :
    (display : Value → String) (idx : ℕ) (columns : List Column) (values : List Value)
    (rows : List Fields)
    → named_rows display idx columns values ≡ ok rows
    → RowsMatch columns values rows
unfolding named_rows
rows_match display idx columns [] [] h = tt
rows_match display idx columns [] (row ∷ rows) h = cc
rows_match display idx columns (v ∷ vs) rows h =
    let (f, o, first, others, q) =
      both_ok (named_row display idx columns v) (named_rows display (idx + 1) columns vs) rows h in
    subst (RowsMatch columns (v ∷ vs)) q (
      (λ k. get-named_row display k idx columns v f first),
      rows_match display (idx + 1) columns vs o others,
    )
