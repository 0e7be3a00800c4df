-- ===== src/Protocol/Decode/Result.antt =====
-- src/protocol/response.rs: `QueryResultDe` and the hand-written `Deserialize` of `QueryResult`.
use mapepire_rs.Prelude.{
  ℕ, String, Bool, true, false, not, ◌||◌, Option, none, some, List, [], ◌∷◌, ok, ◌>>=◌, map_err,
}
use mapepire_rs.Protocol.Json.{Number, Value, Fields}
use mapepire_rs.Protocol.Serde.{
  Decoded, custom, de_string, de_bool, de_value, de_f64, de_u32, de_i32, de_i64, de_vec, required,
  default, optional, aliased,
}
use mapepire_rs.Protocol.Response.{ℤ, pos, QueryMetaData, ParameterResult, QueryResult}
use mapepire_rs.Protocol.Response.Rows.{named_rows_from_wire}
use mapepire_rs.Protocol.Rendering.{Rendering}
use mapepire_rs.Protocol.Decode.Bodies.{zero_f64, de_metadata, de_parameter_result}

pub record QueryResultDe : Type 0 where
  pub id : String
  pub success : Bool
  pub has_results : Bool
  pub update_count : ℤ
  pub cont_id : Option String
  pub is_done : Option Bool
  pub metadata : QueryMetaData
  pub values : List Value  -- the field `data`
  pub execution_time : Number
  pub error : Option String
  pub sqlcode : Option ℤ
  pub sqlstate : Option String
  pub parameter_count : Option ℕ
  pub output_parms : List ParameterResult

-- `QueryMetaData::default()`.
abbrev pub no_metadata : QueryMetaData
no_metadata = record { column_count = 0; columns = []; job = none; parameters = [] }

unfoldable pub de_query_result_raw : Fields → Decoded QueryResultDe
de_query_result_raw fs = do
  id ← required de_string "id" fs
  success ← required de_bool "success" fs
  has_results ← default false de_bool "has_results" fs
  update_count ← default (pos 0) de_i64 "update_count" fs
  cont_id ← optional de_string "cont_id" fs
  is_done ← optional de_bool "is_done" fs
  metadata ← default no_metadata de_metadata "metadata" fs
  values ← default [] (de_vec de_value) "data" fs
  execution_time ← default zero_f64 de_f64 "execution_time" fs
  error ← optional de_string "error" fs
  sqlcode ← aliased de_i32 "sqlcode" "sql_rc" fs
  sqlstate ← aliased de_string "sqlstate" "sql_state" fs
  parameter_count ← optional de_u32 "parameter_count" fs
  output_parms ← default [] (de_vec de_parameter_result) "output_parms" fs
  ok (record {
    id = id;
    success = success;
    has_results = has_results;
    update_count = update_count;
    cont_id = cont_id;
    is_done = is_done;
    metadata = metadata;
    values = values;
    execution_time = execution_time;
    error = error;
    sqlcode = sqlcode;
    sqlstate = sqlstate;
    parameter_count = parameter_count;
    output_parms = output_parms;
  })

abbrev is_nonempty : List Fields → Bool
is_nonempty [] = false
is_nonempty (r ∷ rs) = true

abbrev done_flag : Option Bool → Bool → Bool
done_flag (some flag) has_result_set = flag
done_flag none has_result_set = not has_result_set

unfoldable pub finish_query_result : QueryResultDe → List Fields → QueryResult
finish_query_result raw rows = record {
  id = raw.id;
  success = raw.success;
  has_results = raw.has_results;
  update_count = raw.update_count;
  cont_id = raw.cont_id;
  is_done = done_flag raw.is_done (raw.has_results || is_nonempty rows);
  metadata = raw.metadata;
  rows = rows;
  execution_time = raw.execution_time;
  error = raw.error;
  sqlcode = raw.sqlcode;
  sqlstate = raw.sqlstate;
  parameter_count = raw.parameter_count;
  output_parms = raw.output_parms;
}

unfoldable pub de_query_result : Rendering → Fields → Decoded QueryResult
de_query_result r fs = do
  raw ← de_query_result_raw fs
  rows ← map_err custom (named_rows_from_wire r.value_text raw.metadata raw.values)
  ok (finish_query_result raw rows)
