-- ===== src/Protocol/Decode/Tagged.antt =====
-- src/protocol/decode.rs: `decode_tagged`.
use Prim.Native.String.{◌++◌}
use mapepire_rs.Prelude.{String, Bool, if◌then◌else◌, Result, ok, err, ◌>>=◌, map_err, ok_or}
use mapepire_rs.Prelude.Text.{str_eq}
use mapepire_rs.Protocol.Json.{Value, Fields, remove, get_str}
use mapepire_rs.Protocol.Serde.{
  Decoded, Decoder, de_string, de_bool, de_f64, de_vec, required, default,
}
use mapepire_rs.Protocol.Response.{
  Response, connected, pong, exited, query_result, prepared_statement, sql_closed, cl_result,
  version, db_job, config_set, trace_data, error,
}
use mapepire_rs.Protocol.Rendering.{Rendering}
use mapepire_rs.Protocol.Decode.Bodies.{zero_f64, de_cl_message, de_error_response, decode_dove}
use mapepire_rs.Protocol.Decode.Result.{de_query_result}

-- `deserialize_null_as_empty`.
abbrev pub de_null_as_empty : Decoder String
de_null_as_empty k Value.null = ok ""
de_null_as_empty k v = de_string k v

unfoldable pub de_connected : Fields → Decoded Response
de_connected fs = do
  id ← required de_string "id" fs
  version' ← default "" de_string "version" fs
  job ← required de_string "job" fs
  ok (connected id version' job)

unfoldable pub de_id_body : (String → Response) → Fields → Decoded Response
de_id_body make fs = required de_string "id" fs >>= λ id. ok (make id)

unfoldable pub de_success_body : (String → Bool → Response) → Fields → Decoded Response
de_success_body make fs = do
  id ← required de_string "id" fs
  success ← required de_bool "success" fs
  ok (make id success)

unfoldable pub de_prepared_statement : Fields → Decoded Response
de_prepared_statement fs = do
  id ← required de_string "id" fs
  success ← required de_bool "success" fs
  cont_id ← required de_string "cont_id" fs
  execution_time ← default zero_f64 de_f64 "execution_time" fs
  ok (prepared_statement id success cont_id execution_time)

unfoldable pub de_cl_result : Fields → Decoded Response
de_cl_result fs = do
  id ← required de_string "id" fs
  success ← required de_bool "success" fs
  messages ← required (de_vec de_cl_message) "messages" fs
  ok (cl_result id success messages)

-- `VersionBody` and `DbJobBody`: an id, the flag and one text.
unfoldable pub de_text_body :
    (String → Bool → String → Response) → String → Fields → Decoded Response
de_text_body make key fs = do
  id ← required de_string "id" fs
  success ← required de_bool "success" fs
  text ← required de_string key fs
  ok (make id success text)

unfoldable pub de_trace_data : Fields → Decoded Response
de_trace_data fs = do
  id ← required de_string "id" fs
  success ← required de_bool "success" fs
  tracedata ← default "" de_null_as_empty "tracedata" fs
  ok (trace_data id success tracedata)

-- The body of each tag, read from the fields without `type`.
unfoldable pub tagged_body : Rendering → String → Fields → Result (Decoded Response) String
unfolding de_connected de_id_body de_success_body de_cl_result de_text_body de_trace_data
tagged_body r tag fs =
    if str_eq tag "connected"
    then ok (de_connected fs)
    else if str_eq tag "pong"
    then ok (de_id_body pong fs)
    else if str_eq tag "exited"
    then ok (de_id_body exited fs)
    else if str_eq tag "query_result"
    then ok (de_query_result r fs >>= λ q. ok (query_result q))
    else if str_eq tag "prepared_statement"
    then ok (de_prepared_statement fs)
    else if str_eq tag "sql_closed"
    then ok (de_success_body sql_closed fs)
    else if str_eq tag "cl_result"
    then ok (de_cl_result fs)
    else if str_eq tag "version"
    then ok (de_text_body version "version" fs)
    else if str_eq tag "db_job"
    then ok (de_text_body db_job "job" fs)
    else if str_eq tag "config_set"
    then ok (de_success_body config_set fs)
    else if str_eq tag "trace_data"
    then ok (de_trace_data fs)
    else if str_eq tag "dove_result"
    then ok (decode_dove fs)
    else if str_eq tag "error"
    then ok (de_error_response fs >>= λ e. ok (error e))
    else err ("unknown response type: " ++ tag)

unfoldable pub decode_tagged : Rendering → Fields → Result Response String
unfolding tagged_body
decode_tagged r fs = do
  tag ← ok_or "missing type" (get_str "type" fs)
  body ← tagged_body r tag (remove "type" fs)
  map_err r.serde_text body
