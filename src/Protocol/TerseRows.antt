-- ===== src/Protocol/TerseRows.antt =====
-- src/protocol/response.rs, `named_rows_from_wire`: terse rows against object rows.
use mapepire_rs.Prelude.{
  ℕ, ◌+◌, ◌≡◌, ◌≢◌, refl, ap, sym, ◌∙◌, String, false, none, List, [], ◌∷◌, map, All, length, ltb,
  arith, ok, inl, inr, Bool-cases,
}
use mapepire_rs.Prelude.Text.{str_eq}
use mapepire_rs.Protocol.Json.{
  Value, array, object, Fields, end, field, get, insert, get-insert, of_list, to_list-of_list,
}
use mapepire_rs.Protocol.Response.{Column, QueryMetaData}
use mapepire_rs.Protocol.Response.Rows.{
  name_cells, terse_row, named_row, named_rows, named_rows_from_wire,
}

-- The object that has each cell under the name of its column.
abbrev pub object_of : List Column → List Value → Fields
object_of (c ∷ columns) (cell ∷ cells) = field c.name cell (object_of columns cells)
object_of _ _ = end

abbrev join : Fields → Fields → Fields
join end gs = gs
join (field k v fs) gs = field k v (join fs gs)

-- No two columns have the same name.
abbrev pub AreDistinct : List Column → Type 0
AreDistinct [] = Unit {0}
AreDistinct (c ∷ columns) = All (λ d. str_eq c.name d.name ≡ false) columns × AreDistinct columns

insert-join :
    (k : String) (v : Value) (fs : Fields)
    → get k fs ≡ none
    → insert k v fs ≡ join fs (field k v end)
unfolding get insert
insert-join k v end h = refl
insert-join k v (field j w fs) h = elim (Bool-cases (str_eq j k)) [
  | inl e ↦ absurd (ground arith)
  | inr e ↦ rw (e) (ap (field j w) (insert-join k v fs (rw (e, get) at h)))
]

join_assoc : (fs gs hs : Fields) → join (join fs gs) hs ≡ join fs (join gs hs)
join_assoc end gs hs = refl
join_assoc (field k v fs) gs hs = ap (field k v) (join_assoc fs gs hs)

join_end : (fs : Fields) → join fs end ≡ fs
join_end end = refl
join_end (field k v fs) = ap (field k v) (join_end fs)

-- Columns that a row does not name yet.
abbrev AreFresh : Fields → List Column → Type 0
AreFresh fs columns = All (λ d. get d.name fs ≡ none) columns

AreFresh-insert :
    (k : String) (v : Value) (fs : Fields) (columns : List Column)
    → All (λ d. str_eq k d.name ≡ false) columns
    → AreFresh fs columns
    → AreFresh (insert k v fs) columns
AreFresh-insert k v fs [] ne h = tt
AreFresh-insert k v fs (d ∷ columns) ne h =
    (get-insert k d.name v fs ∙ rw (ne.0) h.0, AreFresh-insert k v fs columns ne.1 h.1)

name_cells-object_of :
    (idx i : ℕ) (columns : List Column) (cells : List Value) (row : Fields)
    → AreDistinct columns
    → AreFresh row columns
    → length cells ≡ length columns
    → name_cells idx i columns cells row ≡ ok (join row (object_of columns cells))
unfolding name_cells
name_cells-object_of idx i [] [] row d f n = ap ok (sym (join_end row))
name_cells-object_of idx i (c ∷ columns) [] row d f n = absurd (omega arith)
name_cells-object_of idx i [] (cell ∷ cells) row d f n = absurd (omega arith)
name_cells-object_of idx i (c ∷ columns) (cell ∷ cells) row d f n =
    name_cells-object_of idx (i + 1) columns cells (insert c.name cell row) d.1
      (AreFresh-insert c.name cell row columns d.0 f.1) (omega arith)
    ∙ ap ok (
        ap (λ fs. join fs (object_of columns cells)) (insert-join c.name cell row f.0)
        ∙ join_assoc row (field c.name cell end) (object_of columns cells))

all_fresh : (columns : List Column) → AreFresh end columns
unfolding get
all_fresh [] = tt
all_fresh (c ∷ columns) = (refl, all_fresh columns)

ltb_self : (n : ℕ) → ltb n n ≡ false
ltb_self n = ground arith

row_alike :
    (display : Value → String) (idx : ℕ) (c : Column) (columns : List Column) (cells : List Value)
    → AreDistinct (c ∷ columns)
    → length cells ≡ length (c ∷ columns)
    → named_row display idx (c ∷ columns) (array (of_list cells))
      ≡ named_row display idx (c ∷ columns) (object (object_of (c ∷ columns) cells))
unfolding named_row terse_row
row_alike display idx c columns cells d n =
    rw (to_list-of_list cells, n, ltb_self (length (c ∷ columns)))
      (name_cells-object_of idx 0 (c ∷ columns) cells end d (all_fresh (c ∷ columns)) n)

rows_alike :
    (display : Value → String) (idx : ℕ) (c : Column) (columns : List Column)
    (rows : List (List Value))
    → AreDistinct (c ∷ columns)
    → All (λ cells. length cells ≡ length (c ∷ columns)) rows
    → named_rows display idx (c ∷ columns) (map (λ cells. array (of_list cells)) rows)
      ≡ named_rows display idx
          (c ∷ columns)
          (map (λ cells. object (object_of (c ∷ columns) cells)) rows)
unfolding named_rows
rows_alike display idx c columns [] d n = refl
rows_alike display idx c columns (cells ∷ rows) d n =
    rw
      (
        row_alike display idx c columns cells d n.0,
        rows_alike display (idx + 1) c columns rows d n.1,
      )
      refl

-- A result whose columns have distinct names, at least one, and whose rows have a cell for each of
-- them, reads the same whether the daemon sends its rows as arrays or as objects.
pub terse_as_objects :
    (display : Value → String) (metadata : QueryMetaData) (rows : List (List Value))
    → metadata.columns ≢ []
    → AreDistinct metadata.columns
    → All (λ cells. length cells ≡ length metadata.columns) rows
    → named_rows_from_wire display metadata (map (λ cells. array (of_list cells)) rows)
      ≡ named_rows_from_wire display metadata
          (map (λ cells. object (object_of metadata.columns cells)) rows)
unfolding named_rows_from_wire
terse_as_objects display metadata rows some_column d n = go metadata.columns some_column d n
  where
    go :
        (columns : List Column)
        → columns ≢ []
        → AreDistinct columns
        → All (λ cells. length cells ≡ length columns) rows
        → named_rows display 0 columns (map (λ cells. array (of_list cells)) rows)
          ≡ named_rows display 0 columns (map (λ cells. object (object_of columns cells)) rows)
    go [] ne d n = absurd (ne refl)
    go (c ∷ columns) ne d n = rows_alike display 0 c columns rows d n
