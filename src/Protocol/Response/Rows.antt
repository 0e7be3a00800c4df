-- ===== src/Protocol/Response/Rows.antt =====
-- src/protocol/response.rs: `named_rows_from_wire`, which turns the `data` of a result, objects or
-- terse arrays, into maps from column names.
use Prim.Native.String.{◌++◌}
use mapepire_rs.Prelude.{
  ℕ, ◌+◌, String, List, [], ◌∷◌, ltb, length, if◌then◌else◌, Result, ok, err, ◌>>=◌,
}
use mapepire_rs.Prelude.Text.{show_ℕ}
use mapepire_rs.Protocol.Json.{Value, array, object, Fields, end, insert, to_list}
use mapepire_rs.Protocol.Response.Wire.{Column, QueryMetaData}

-- `ProtocolError::TerseRowsWithoutColumns.to_string()`.
abbrev pub terse_text : String
terse_text = "terse row data requires metadata.columns"

-- The loop over the cells of a terse row; `idx` and `i` count rows and cells.
unfoldable pub name_cells : ℕ → ℕ → List Column → List Value → Fields → Result Fields String
name_cells idx i columns [] row = ok row
name_cells idx i [] (cell ∷ cells) row =
    err ("terse row " ++ show_ℕ idx ++ " is missing metadata.columns[" ++ show_ℕ i ++ "]")
name_cells idx i (c ∷ columns) (cell ∷ cells) row =
    name_cells idx (i + 1) columns cells (insert c.name cell row)

too_wide : ℕ → ℕ → ℕ → String
too_wide idx cells columns =
    "terse row "
    ++ show_ℕ idx
    ++ " has "
    ++ show_ℕ cells
    ++ " values but metadata.columns has "
    ++ show_ℕ columns

unfoldable pub terse_row : ℕ → List Column → List Value → Result Fields String
unfolding too_wide
terse_row idx [] cells = err terse_text
terse_row idx (c ∷ columns) cells =
    if ltb (length (c ∷ columns)) (length cells)
    then err (too_wide idx (length cells) (length (c ∷ columns)))
    else name_cells idx 0 (c ∷ columns) cells end

-- `display` is how a JSON value prints.
unfoldable pub named_row : (Value → String) → ℕ → List Column → Value → Result Fields String
named_row display idx columns (object row) = ok row
named_row display idx columns (array cells) = terse_row idx columns (to_list cells)
named_row display idx columns other =
    err ("query row " ++ show_ℕ idx ++ " must be a JSON object or array, got " ++ display other)

unfoldable pub named_rows :
    (Value → String) → ℕ → List Column → List Value → Result (List Fields) String
named_rows display idx columns [] = ok []
named_rows display idx columns (row ∷ rest) = do
  first ← named_row display idx columns row
  others ← named_rows display (idx + 1) columns rest
  ok (first ∷ others)

unfoldable pub named_rows_from_wire :
    (Value → String) → QueryMetaData → List Value → Result (List Fields) String
named_rows_from_wire display metadata values = named_rows display 0 metadata.columns values
