-- ===== src/Protocol/Encode/ReadRequest.antt =====
-- src/protocol/request.rs: the derived Deserialize of `Request`, on a JSON object. Of several faults,
-- the first in declaration order is reported.
use mapepire_rs.Prelude.{
  ℕ, String, Bool, Option, none, List, if◌then◌else◌, ok, err, ◌>>=◌, map_err,
}
use mapepire_rs.Prelude.Text.{str_eq}
use mapepire_rs.Protocol.Json.{Fields, remove}
use mapepire_rs.Protocol.Json.{Value}
use mapepire_rs.Protocol.Serde.{
  Decoded, Decoder, custom, unknown_variant, de_string, de_bool, de_value, de_u32, de_vec, required,
  default, optional,
}
use mapepire_rs.Protocol.Params.{Sets, deserialize}
use mapepire_rs.Protocol.Request.{
  Request, connect, sql, prepare_sql, prepare_sql_execute, execute, sql_more, sql_close, cl,
  get_version, get_db_job, set_config, get_trace_data, dove, ping, exit,
}

-- `parameter_sets::deserialize` as the decoder of a field.
abbrev pub de_sets : Decoder (Option Sets)
de_sets k v = map_err custom (deserialize v)

abbrev de_values : Decoder (List Value)
de_values = de_vec de_value

abbrev rows_of : Fields → Decoded (Option ℕ)
rows_of fs = optional de_u32 "rows" fs

abbrev terse_of : Fields → Decoded (Option Bool)
terse_of fs = optional de_bool "terse" fs

de_connect : Fields → Decoded Request
de_connect fs = do
  id ← required de_string "id" fs
  technique ← required de_string "technique" fs
  application ← required de_string "application" fs
  props ← optional de_string "props" fs
  ok (connect id technique application props)

de_sql : Fields → Decoded Request
de_sql fs = do
  id ← required de_string "id" fs
  text ← required de_string "sql" fs
  rows ← rows_of fs
  parameters ← optional de_values "parameters" fs
  terse ← terse_of fs
  ok (sql id text rows parameters terse)

de_prepare_sql : Fields → Decoded Request
de_prepare_sql fs = do
  id ← required de_string "id" fs
  text ← required de_string "sql" fs
  terse ← terse_of fs
  ok (prepare_sql id text terse)

de_prepare_sql_execute : Fields → Decoded Request
de_prepare_sql_execute fs = do
  id ← required de_string "id" fs
  text ← required de_string "sql" fs
  parameters ← default none de_sets "parameters" fs
  rows ← rows_of fs
  terse ← terse_of fs
  ok (prepare_sql_execute id text parameters rows terse)

de_execute : Fields → Decoded Request
de_execute fs = do
  id ← required de_string "id" fs
  cont_id ← required de_string "cont_id" fs
  parameters ← optional de_values "parameters" fs
  rows ← rows_of fs
  terse ← terse_of fs
  ok (execute id cont_id parameters rows terse)

de_sql_more : Fields → Decoded Request
de_sql_more fs = do
  id ← required de_string "id" fs
  cont_id ← required de_string "cont_id" fs
  rows ← required de_u32 "rows" fs
  ok (sql_more id cont_id rows)

de_sql_close : Fields → Decoded Request
de_sql_close fs = do
  id ← required de_string "id" fs
  cont_id ← required de_string "cont_id" fs
  ok (sql_close id cont_id)

de_cl : Fields → Decoded Request
de_cl fs = do
  id ← required de_string "id" fs
  cmd ← required de_string "cmd" fs
  terse ← terse_of fs
  ok (cl id cmd terse)

de_set_config : Fields → Decoded Request
de_set_config fs = do
  id ← required de_string "id" fs
  tracelevel ← default "" de_string "tracelevel" fs
  tracedest ← default "" de_string "tracedest" fs
  ok (set_config id tracelevel tracedest)

de_dove : Fields → Decoded Request
de_dove fs = do
  id ← required de_string "id" fs
  text ← required de_string "sql" fs
  run ← optional de_bool "run" fs
  rows ← rows_of fs
  terse ← terse_of fs
  ok (dove id text run rows terse)

de_id_only : (String → Request) → Fields → Decoded Request
de_id_only make fs = required de_string "id" fs >>= λ id. ok (make id)

-- The fields of a variant, in declaration order.
unfoldable pub request_fields : String → Fields → Decoded Request
unfolding de_connect de_sql de_prepare_sql de_prepare_sql_execute de_execute de_sql_more
    de_sql_close de_cl de_set_config de_dove de_id_only
request_fields tag fs =
    if str_eq tag "connect"
    then de_connect fs
    else if str_eq tag "sql"
    then de_sql fs
    else if str_eq tag "prepare_sql"
    then de_prepare_sql fs
    else if str_eq tag "prepare_sql_execute"
    then de_prepare_sql_execute fs
    else if str_eq tag "execute"
    then de_execute fs
    else if str_eq tag "sqlmore"
    then de_sql_more fs
    else if str_eq tag "sqlclose"
    then de_sql_close fs
    else if str_eq tag "cl"
    then de_cl fs
    else if str_eq tag "getversion"
    then de_id_only get_version fs
    else if str_eq tag "getdbjob"
    then de_id_only get_db_job fs
    else if str_eq tag "setconfig"
    then de_set_config fs
    else if str_eq tag "gettracedata"
    then de_id_only get_trace_data fs
    else if str_eq tag "dove"
    then de_dove fs
    else if str_eq tag "ping"
    then de_id_only ping fs
    else if str_eq tag "exit"
    then de_id_only exit fs
    else err (unknown_variant tag)

-- The tag is read first, and the variant from the other keys.
unfoldable pub decode_request : Fields → Decoded Request
unfolding request_fields
decode_request fs = do tag ← required de_string "type" fs; request_fields tag (remove "type" fs)
