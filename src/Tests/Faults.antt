-- ===== src/Tests/Faults.antt =====
-- Instances for results and for frames that are not understood.
use mapepire_rs.Prelude.{
  ℕ, ◌≡◌, refl, String, true, false, not, ◌||◌, none, some, List, [], ◌∷◌, ◌++◌, head?, Result, ok,
  err, unwrap_or,
}
use mapepire_rs.Protocol.Json.{
  Value, null, bool, string, array, object, nil, cons, Fields, field, end, get, get_str, get_bool,
  contains_key, float,
}
use mapepire_rs.Protocol.Response.{QueryResult, pos}
use mapepire_rs.Protocol.Response.Rows.{named_rows, named_rows_from_wire, named_row}
use mapepire_rs.Protocol.NamedRows.{RowsMatch}
use mapepire_rs.Protocol.Decode.{
  decode_value, QueryResultDe, de_query_result, de_query_result_raw, finish_query_result,
}
use mapepire_rs.Protocol.Results.{decoded_result, has_rows}
use mapepire_rs.Error.{protocol}
use mapepire_rs.Transport.Kinds.{ping}
use mapepire_rs.Transport.Dispatcher.{
  Outbound, outbound, frame, spawn, answered, protocol_decode_error, value_id, run,
}
use mapepire_rs.Transport.Dispatcher.Faults.{bad_frame_fails_caller}
use mapepire_rs.Tests.{plain}

-- A frame with an id and nothing else.
abbrev odd : Fields
odd = field "id" (string "a-0") end

abbrev parse_odd : List ℕ → Result Value String
parse_odd bytes = ok (object odd)

abbrev first : Outbound
first = record { id = "a-0"; reply = 7; kind = ping }

bad_frame_fails_caller_example :
    let t = run plain parse_odd (outbound first none ∷ ([] ++ frame [] ∷ [])) spawn in
    (head? t.replies
      ≡ some (
        7,
        answered (err (protocol (protocol_decode_error "unrecognized untagged response object"))),
      ))
    × (t.running ≡ true)
unfolding spawn decode_value contains_key get_bool get value_id get_str
bad_frame_fails_caller_example =
    bad_frame_fails_caller plain parse_odd first [] [] (object odd)
      "unrecognized untagged response object" spawn refl tt refl refl refl

-- A result with the given rows and no column names.
abbrev result_frame : Value → Fields
result_frame row =
    field "id" (string "a-0")
      (field "success" (bool true) (field "data" (array (cons row nil)) end))

abbrev raw_of : Value → QueryResultDe
raw_of row = record {
  id = "a-0";
  success = true;
  has_results = false;
  update_count = pos 0;
  cont_id = none;
  is_done = none;
  metadata = record { column_count = 0; columns = []; job = none; parameters = [] };
  values = row ∷ [];
  execution_time = float 0;
  error = none;
  sqlcode = none;
  sqlstate = none;
  parameter_count = none;
  output_parms = [];
}

read_raw : (row : Value) → de_query_result_raw (result_frame row) ≡ ok (raw_of row)
unfolding de_query_result_raw get contains_key
read_raw row = refl

abbrev object_row : Value
object_row = object (field "M" null end)

abbrev one_row : QueryResult
one_row = finish_query_result (raw_of object_row) (field "M" null end ∷ [])

decoded_result_example :
    (raw : QueryResultDe) × (de_query_result_raw (result_frame object_row) ≡ ok raw)
    × (one_row.id ≡ raw.id)
    × RowsMatch raw.metadata.columns raw.values one_row.rows
    × (one_row.is_done ≡ unwrap_or raw.is_done (not (raw.has_results || has_rows one_row.rows)))
unfolding de_query_result de_query_result_raw named_rows_from_wire named_row named_rows get
    contains_key
decoded_result_example = decoded_result plain (result_frame object_row) one_row refl
