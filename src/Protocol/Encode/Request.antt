-- ===== src/Protocol/Encode/Request.antt =====
-- src/protocol/request.rs: the JSON object that a request is written as.
use mapepire_rs.Prelude.{ℕ, String, Bool, Option, some, List}
use mapepire_rs.Protocol.Json.{Value, bool, string, Fields, end, field}
use mapepire_rs.Protocol.Params.{Sets, serialize}
use mapepire_rs.Protocol.Request.{
  Request, connect, sql, prepare_sql, prepare_sql_execute, execute, sql_more, sql_close, cl,
  get_version, get_db_job, set_config, get_trace_data, dove, ping, exit,
}
use mapepire_rs.Protocol.Encode.Fields.{put_string, put_some, put_text, of_u32, of_values}

-- The object of a variant: its tag, its id and the other fields.
abbrev tagged : String → String → Fields → Fields
tagged tag id fs = put_string "type" tag (put_string "id" id fs)

abbrev pub put_rows : Option ℕ → Fields → Fields
put_rows rows fs = put_some of_u32 "rows" rows fs

abbrev pub put_terse : Option Bool → Fields
put_terse terse = put_some bool "terse" terse end

abbrev pub put_values : Option (List Value) → Fields → Fields
put_values parameters fs = put_some of_values "parameters" parameters fs

-- `parameter_sets` is called only for `Some`.
abbrev pub put_sets : Option Sets → Fields → Fields
put_sets parameters fs = put_some (λ sets. serialize (some sets)) "parameters" parameters fs

unfoldable pub encode_request : Request → Fields
encode_request (connect id technique application props) = tagged "connect" id (
    put_string "technique" technique
      (put_string "application" application (put_some string "props" props end)))
encode_request (sql id text rows parameters terse) =
    tagged "sql" id
      (put_string "sql" text (put_rows rows (put_values parameters (put_terse terse))))
encode_request (prepare_sql id text terse) =
    tagged "prepare_sql" id (put_string "sql" text (put_terse terse))
encode_request (prepare_sql_execute id text parameters rows terse) =
    tagged "prepare_sql_execute" id
      (put_string "sql" text (put_sets parameters (put_rows rows (put_terse terse))))
encode_request (execute id cont_id parameters rows terse) =
    tagged "execute" id
      (put_string "cont_id" cont_id (put_values parameters (put_rows rows (put_terse terse))))
encode_request (sql_more id cont_id rows) =
    tagged "sqlmore" id (put_string "cont_id" cont_id (field "rows" (of_u32 rows) end))
encode_request (sql_close id cont_id) = tagged "sqlclose" id (put_string "cont_id" cont_id end)
encode_request (cl id cmd terse) = tagged "cl" id (put_string "cmd" cmd (put_terse terse))
encode_request (get_version id) = tagged "getversion" id end
encode_request (get_db_job id) = tagged "getdbjob" id end
encode_request (set_config id tracelevel tracedest) =
    tagged "setconfig" id (put_text "tracelevel" tracelevel (put_text "tracedest" tracedest end))
encode_request (get_trace_data id) = tagged "gettracedata" id end
encode_request (dove id text run rows terse) =
    tagged "dove" id
      (put_string "sql" text (put_some bool "run" run (put_rows rows (put_terse terse))))
encode_request (ping id) = tagged "ping" id end
encode_request (exit id) = tagged "exit" id end
