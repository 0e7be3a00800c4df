-- ===== src/Protocol/Decode/Bodies.antt =====
-- src/protocol/decode.rs and response.rs: the structs that serde reads from a frame. Of several
-- faults in one struct, the first in declaration order is reported.
use mapepire_rs.Prelude.{String, Bool, Option, none, some, [], ◌∷◌, unwrap_or, ok, ◌>>=◌}
use mapepire_rs.Protocol.Json.{Number, float, Value, null, Fields}
use mapepire_rs.Protocol.Serde.{
  Decoded, Decoder, de_string, de_bool, de_value, de_u32, de_i32, de_vec, required, default,
  optional, aliased, struct_fields,
}
use mapepire_rs.Protocol.Response.{
  Column, ParameterDetail, ParameterResult, QueryMetaData, ClMessage, ErrorResponse, Response,
  dove_result,
}

-- `0.0`.
abbrev pub zero_f64 : Number
zero_f64 = float 0

unfoldable pub de_column : Decoder Column
de_column k v = do
  fs ← struct_fields ("name" ∷ "label" ∷ "type" ∷ "display_size" ∷ "precision" ∷ "scale" ∷ []) k v
  name ← required de_string "name" fs
  label ← optional de_string "label" fs
  type_name ← optional de_string "type" fs
  display_size ← optional de_u32 "display_size" fs
  precision ← optional de_u32 "precision" fs
  scale ← optional de_u32 "scale" fs
  ok (record {
    name = name;
    label = label;
    type_name = type_name;
    display_size = display_size;
    precision = precision;
    scale = scale;
  })

unfoldable pub de_parameter_detail : Decoder ParameterDetail
de_parameter_detail k v = do
  fs ← struct_fields ("type" ∷ "mode" ∷ "precision" ∷ "scale" ∷ "name" ∷ []) k v
  type_name ← default "" de_string "type" fs
  mode ← default "" de_string "mode" fs
  precision ← default 0 de_u32 "precision" fs
  scale ← optional de_u32 "scale" fs
  name ← default "" de_string "name" fs
  ok (record {
    type_name = type_name;
    mode = mode;
    precision = precision;
    scale = scale;
    name = name;
  })

unfoldable pub de_parameter_result : Decoder ParameterResult
de_parameter_result k v = do
  fs ←
      struct_fields ("index" ∷ "type" ∷ "precision" ∷ "scale" ∷ "name" ∷ "ccsid" ∷ "value" ∷ []) k v
  index ← default 0 de_u32 "index" fs
  type_name ← default "" de_string "type" fs
  precision ← default 0 de_u32 "precision" fs
  scale ← optional de_u32 "scale" fs
  name ← default "" de_string "name" fs
  ccsid ← optional de_u32 "ccsid" fs
  value ← optional de_value "value" fs
  ok (record {
    index = index;
    type_name = type_name;
    precision = precision;
    scale = scale;
    name = name;
    ccsid = ccsid;
    value = value;
  })

unfoldable pub de_metadata : Decoder QueryMetaData
unfolding de_column de_parameter_detail
de_metadata k v = do
  fs ← struct_fields ("column_count" ∷ "columns" ∷ "job" ∷ "parameters" ∷ []) k v
  column_count ← default 0 de_u32 "column_count" fs
  columns ← default [] (de_vec de_column) "columns" fs
  job ← optional de_string "job" fs
  parameters ← default [] (de_vec de_parameter_detail) "parameters" fs
  ok (record { column_count = column_count; columns = columns; job = job; parameters = parameters })

unfoldable pub de_cl_message : Decoder ClMessage
de_cl_message k v = do
  fs ← struct_fields ("id" ∷ "type" ∷ "text" ∷ []) k v
  id ← optional de_string "id" fs
  kind ← optional de_string "type" fs
  text ← optional de_string "text" fs
  ok (record { id = id; kind = kind; text = text })

unfoldable pub de_error_response : Fields → Decoded ErrorResponse
de_error_response fs = do
  id ← required de_string "id" fs
  success ← required de_bool "success" fs
  sqlstate ← aliased de_string "sqlstate" "sql_state" fs
  sqlcode ← aliased de_i32 "sqlcode" "sql_rc" fs
  error ← optional de_string "error" fs
  job ← optional de_string "job" fs
  ok (record {
    id = id;
    success = success;
    sqlstate = sqlstate;
    sqlcode = sqlcode;
    error = error;
    job = job;
  })

pub record DoveResultBody : Type 0 where
  pub id : String
  pub success : Bool
  pub vedata : Option Value
  pub vemetadata : Option Value
  pub result : Option Value

unfoldable pub de_dove_body : Fields → Decoded DoveResultBody
de_dove_body fs = do
  id ← required de_string "id" fs
  success ← required de_bool "success" fs
  vedata ← optional de_value "vedata" fs
  vemetadata ← optional de_value "vemetadata" fs
  result ← optional de_value "result" fs
  ok (record {
    id = id;
    success = success;
    vedata = vedata;
    vemetadata = vemetadata;
    result = result;
  })

-- `Option::or`.
abbrev or_else : {A : Type 0} → Option A → Option A → Option A
or_else none b = b
or_else (some a) b = some a

unfoldable pub dove_from_body : DoveResultBody → Response
dove_from_body b =
    dove_result b.id b.success (unwrap_or (or_else b.vedata b.result) null) b.vemetadata

unfoldable pub decode_dove : Fields → Decoded Response
unfolding de_dove_body dove_from_body
decode_dove fs = de_dove_body fs >>= λ b. ok (dove_from_body b)
