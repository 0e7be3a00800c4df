-- ===== src/Debug/Requests.antt =====
-- src/protocol/request.rs, `impl Debug for Request`: what it shows of a request.
use mapepire_rs.Prelude.{ℕ, String, Bool, Option, List, [], ◌∷◌}
use mapepire_rs.Protocol.Request.{
  Request, connect, sql, prepare_sql, prepare_sql_execute, execute, sql_more, sql_close, cl,
  get_version, get_db_job, set_config, get_trace_data, dove, ping, exit,
}
use mapepire_rs.Debug.{quoted, num, flag, values, sets, Shown, plain, DebugStruct, show_option}

abbrev text_field : String → String → String × Shown
text_field k s = (k, plain (quoted s))

-- The structure of a variant, whose first field is its id.
abbrev with_id : String → String → List (String × Shown) → DebugStruct
with_id name id fields = record { name = name; fields = text_field "id" id ∷ fields }

abbrev pub rows_field : Option ℕ → String × Shown
rows_field rows = ("rows", show_option num rows)

abbrev pub terse_field : Option Bool → String × Shown
terse_field terse = ("terse", show_option flag terse)

unfoldable pub debug_request : Request → DebugStruct
unfolding show_option
debug_request (connect id technique application props) = with_id "Connect" id (
    text_field "technique" technique
    ∷ text_field "application" application
    ∷ ("props", show_option quoted props)
    ∷ [])
debug_request (sql id text rows parameters terse) = with_id "Sql" id (
    text_field "sql" text
    ∷ rows_field rows
    ∷ ("parameters", show_option values parameters)
    ∷ terse_field terse
    ∷ [])
debug_request (prepare_sql id text terse) =
    with_id "PrepareSql" id (text_field "sql" text ∷ terse_field terse ∷ [])
debug_request (prepare_sql_execute id text parameters rows terse) = with_id "PrepareSqlExecute" id (
    text_field "sql" text
    ∷ ("parameters", show_option sets parameters)
    ∷ rows_field rows
    ∷ terse_field terse
    ∷ [])
debug_request (execute id cont_id parameters rows terse) = with_id "Execute" id (
    text_field "cont_id" cont_id
    ∷ ("parameters", show_option values parameters)
    ∷ rows_field rows
    ∷ terse_field terse
    ∷ [])
debug_request (sql_more id cont_id rows) =
    with_id "SqlMore" id (text_field "cont_id" cont_id ∷ ("rows", plain (num rows)) ∷ [])
debug_request (sql_close id cont_id) = with_id "SqlClose" id (text_field "cont_id" cont_id ∷ [])
debug_request (cl id cmd terse) = with_id "Cl" id (text_field "cmd" cmd ∷ terse_field terse ∷ [])
debug_request (get_version id) = with_id "GetVersion" id []
debug_request (get_db_job id) = with_id "GetDbJob" id []
debug_request (get_trace_data id) = with_id "GetTraceData" id []
debug_request (set_config id tracelevel tracedest) =
    with_id "SetConfig" id
      (text_field "tracelevel" tracelevel ∷ text_field "tracedest" tracedest ∷ [])
debug_request (dove id text run rows terse) = with_id "Dove" id (
    text_field "sql" text
    ∷ ("run", show_option flag run)
    ∷ rows_field rows
    ∷ terse_field terse
    ∷ [])
debug_request (ping id) = with_id "Ping" id []
debug_request (exit id) = with_id "Exit" id []
