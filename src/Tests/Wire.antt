-- ===== src/Tests/Wire.antt =====
-- Instances for src/protocol.
use mapepire_rs.Prelude.{
  ℕ, ◌≡◌, ◌≢◌, refl, String, true, false, none, some, List, [], ◌∷◌, arith, ok,
}
use mapepire_rs.Protocol.Json.{
  Value, null, bool, string, array, object, nil, cons, Fields, field, end, get, contains_key,
  get_bool, insert,
}
use mapepire_rs.Protocol.Response.{Column, Response, error}
use mapepire_rs.Protocol.Response.Rows.{terse_row, named_row, named_rows, name_cells}
use mapepire_rs.Protocol.NamedRows.{RowsMatch, rows_match}
use mapepire_rs.Protocol.Decode.{decode_value, de_error_response}
use mapepire_rs.Protocol.Frames.{CanFail, failure_is_no_ack}
use mapepire_rs.Protocol.Ids.{next, after_calls, ids_distinct}
use mapepire_rs.Protocol.Params.{serialize, deserialize, ambiguous_set_splits}
use mapepire_rs.Tests.{plain, ids_a}

ids_distinct_example : (next (after_calls 2 ids_a)).0 ≢ (next (after_calls 5 ids_a)).0
ids_distinct_example = ids_distinct ids_a 2 5 (omega arith) (omega arith) (omega arith)

abbrev instant : ℕ
instant = 5

abbrev arrays : List Value
arrays = array nil ∷ array (cons null nil) ∷ []

ambiguous_set_splits_example :
    (deserialize (serialize (some (arrays ∷ []))) ≡ ok (some ([] ∷ (null ∷ []) ∷ [])))
    × (deserialize (serialize (some (arrays ∷ []))) ≢ ok (some (arrays ∷ [])))
ambiguous_set_splits_example = ambiguous_set_splits arrays refl (λ e. cc)

abbrev column : String → Column
column name = record {
  name = name;
  label = none;
  type_name = none;
  display_size = none;
  precision = none;
  scale = none;
}

abbrev two_columns : List Column
two_columns = column "N" ∷ column "M" ∷ []

abbrev wire_rows : List Value
wire_rows = array (cons (bool true) nil) ∷ object (field "M" null end) ∷ []

abbrev read_rows : List Fields
read_rows = field "N" (bool true) end ∷ field "M" null end ∷ []

rows_match_example : RowsMatch two_columns wire_rows read_rows
unfolding named_rows named_row terse_row name_cells insert
rows_match_example = rows_match plain.value_text 0 two_columns wire_rows read_rows refl

abbrev failure : Fields
failure = field "id" (string "a-0") (field "success" (bool false) end)

abbrev failed : Response
failed = error (record {
  id = "a-0";
  success = false;
  sqlstate = none;
  sqlcode = none;
  error = none;
  job = none;
})

failure_is_no_ack_example : CanFail failed
unfolding contains_key get_bool get decode_value de_error_response
failure_is_no_ack_example = failure_is_no_ack plain failure failed refl refl refl
