-- ===== src/Protocol/Encode/Response.antt =====
-- src/protocol/response.rs: the JSON object that a response is written as. An f64 is written as the
-- number that it is kept as.
use mapepire_rs.Prelude.{String, Bool}
use mapepire_rs.Protocol.Json.{Value, bool, number, string, object, Fields, end, field}
use mapepire_rs.Protocol.Response.{
  Column, ParameterDetail, ParameterResult, QueryMetaData, QueryResult, ClMessage, ErrorResponse,
  Response, connected, pong, exited, query_result, prepared_statement, sql_closed, cl_result,
  version, db_job, config_set, trace_data, dove_result, error,
}
use mapepire_rs.Protocol.Encode.Fields.{
  put_string, put_some, put_vec, of_u32, of_option, of_vec, of_int,
}

abbrev pub encode_column : Column → Value
encode_column c = object (
    put_string "name" c.name (
      field "label" (of_option string c.label) (
        field "type" (of_option string c.type_name) (
          field "display_size" (of_option of_u32 c.display_size) (
            field "precision" (of_option of_u32 c.precision)
              (field "scale" (of_option of_u32 c.scale) end))))))

abbrev pub encode_parameter_detail : ParameterDetail → Value
encode_parameter_detail p = object (
    put_string "type" p.type_name (
      put_string "mode" p.mode (
        field "precision" (of_u32 p.precision)
          (put_some of_u32 "scale" p.scale (put_string "name" p.name end)))))

abbrev pub verbatim : Value → Value
verbatim v = v

abbrev pub encode_parameter_result : ParameterResult → Value
encode_parameter_result p = object (
    field "index" (of_u32 p.index) (
      put_string "type" p.type_name (
        field "precision" (of_u32 p.precision) (
          put_some of_u32 "scale" p.scale (
            put_string "name" p.name
              (put_some of_u32 "ccsid" p.ccsid (put_some verbatim "value" p.value end)))))))

abbrev pub encode_metadata : QueryMetaData → Value
encode_metadata m = object (
    field "column_count" (of_u32 m.column_count) (
      field "columns" (of_vec encode_column m.columns) (
        put_some string "job" m.job
          (put_vec encode_parameter_detail "parameters" m.parameters end))))

abbrev pub encode_cl_message : ClMessage → Value
encode_cl_message m = object (
    field "id" (of_option string m.id)
      (field "type" (of_option string m.kind) (field "text" (of_option string m.text) end)))

-- The fields of a variant with an id and a success flag.
abbrev put_success : String → Bool → Fields → Fields
put_success id success fs = put_string "id" id (field "success" (bool success) fs)

abbrev pub encode_error_response : ErrorResponse → Fields
encode_error_response e = put_success e.id e.success (
    field "sqlstate" (of_option string e.sqlstate) (
      field "sqlcode" (of_option of_int e.sqlcode)
        (field "error" (of_option string e.error) (field "job" (of_option string e.job) end))))

abbrev pub put_result_tail : QueryResult → Fields
put_result_tail q = put_some string "error" q.error (
    put_some of_int "sqlcode" q.sqlcode (
      put_some string "sqlstate" q.sqlstate (
        put_some of_u32 "parameter_count" q.parameter_count
          (put_vec encode_parameter_result "output_parms" q.output_parms end))))

abbrev pub encode_query_result : QueryResult → Fields
encode_query_result q = put_success q.id q.success (
    field "has_results" (bool q.has_results) (
      field "update_count" (of_int q.update_count) (
        field "cont_id" (of_option string q.cont_id) (
          field "is_done" (bool q.is_done) (
            field "metadata" (encode_metadata q.metadata) (
              field "data" (of_vec object q.rows)
                (field "execution_time" (number q.execution_time) (put_result_tail q))))))))

abbrev tagged : String → Fields → Fields
tagged tag fs = put_string "type" tag fs

unfoldable pub encode_response : Response → Fields
encode_response (connected id text job) =
    tagged "connected" (put_string "id" id (put_string "version" text (put_string "job" job end)))
encode_response (pong id) = tagged "pong" (put_string "id" id end)
encode_response (exited id) = tagged "exited" (put_string "id" id end)
encode_response (query_result q) = tagged "query_result" (encode_query_result q)
encode_response (prepared_statement id success cont_id time) = tagged "prepared_statement" (
    put_success id success
      (put_string "cont_id" cont_id (field "execution_time" (number time) end)))
encode_response (sql_closed id success) = tagged "sql_closed" (put_success id success end)
encode_response (cl_result id success messages) =
    tagged "cl_result"
      (put_success id success (field "messages" (of_vec encode_cl_message messages) end))
encode_response (version id success text) =
    tagged "version" (put_success id success (put_string "version" text end))
encode_response (db_job id success job) =
    tagged "db_job" (put_success id success (put_string "job" job end))
encode_response (config_set id success) = tagged "config_set" (put_success id success end)
encode_response (trace_data id success tracedata) =
    tagged "trace_data" (put_success id success (put_string "tracedata" tracedata end))
encode_response (dove_result id success vedata vemetadata) =
    tagged "dove_result" (
      put_success id success
        (field "vedata" vedata (put_some verbatim "vemetadata" vemetadata end)))
encode_response (error e) = tagged "error" (encode_error_response e)
