-- ===== src/Debug/Faithful.antt =====
-- src/protocol/request.rs: what `impl Debug for Request` shows is what goes on the wire.
use mapepire_rs.Prelude.{
  ℕ, String, Bool, true, false, Option, none, some, List, [], ◌∷◌, if◌then◌else◌, ◌≡◌, refl, ap,
  sym, ◌∙◌,
}
use mapepire_rs.Prelude.Text.{str_eq}
use mapepire_rs.Protocol.Json.{Value, null, bool, string, Fields, end, field}
use mapepire_rs.Protocol.Params.{serialize}
use mapepire_rs.Protocol.Request.{
  Request, connect, sql, prepare_sql, prepare_sql_execute, execute, sql_more, sql_close, cl,
  get_version, get_db_job, set_config, get_trace_data, dove, ping, exit,
}
use mapepire_rs.Protocol.Encode.Fields.{put_text, put_some, of_u32, of_values}
use mapepire_rs.Protocol.Encode.Request.{encode_request, put_rows, put_terse, put_values, put_sets}
use mapepire_rs.Protocol.Encode.ReadRequest.{decode_request}
use mapepire_rs.Protocol.RoundTrip.RequestFields.{IsWritable}
use mapepire_rs.Protocol.RoundTrip.Request.{decode_request-encode_request}
use mapepire_rs.Protocol.RoundTrip.Decoded.{ok_eq}
use mapepire_rs.Debug.{
  Leaf, quoted, num, flag, values, sets, Shown, plain, present, absent, DebugStruct, show_option,
}
use mapepire_rs.Debug.Requests.{rows_field, terse_field, debug_request}

-- The tag on the wire of a variant.
abbrev wire_tag : String → String
wire_tag name =
    if str_eq name "Connect"
    then "connect"
    else if str_eq name "Sql"
    then "sql"
    else if str_eq name "PrepareSql"
    then "prepare_sql"
    else if str_eq name "PrepareSqlExecute"
    then "prepare_sql_execute"
    else if str_eq name "Execute"
    then "execute"
    else if str_eq name "SqlMore"
    then "sqlmore"
    else if str_eq name "SqlClose"
    then "sqlclose"
    else if str_eq name "Cl"
    then "cl"
    else if str_eq name "GetVersion"
    then "getversion"
    else if str_eq name "GetDbJob"
    then "getdbjob"
    else if str_eq name "SetConfig"
    then "setconfig"
    else if str_eq name "GetTraceData"
    then "gettracedata"
    else if str_eq name "Dove"
    then "dove"
    else if str_eq name "Ping"
    then "ping"
    else "exit"

abbrev wire_leaf : Leaf → Value
wire_leaf (quoted s) = string s
wire_leaf (num n) = of_u32 n
wire_leaf (flag b) = bool b
wire_leaf (values vs) = of_values vs
wire_leaf (sets ss) = serialize (some ss)
wire_leaf _ = null

-- Empty texts are left out if `elides`.
abbrev wire_fields : (elides : Bool) → List (String × Shown) → Fields
wire_fields elides [] = end
wire_fields elides ((k, absent) ∷ rest) = wire_fields elides rest
wire_fields elides ((k, present leaf) ∷ rest) = field k (wire_leaf leaf) (wire_fields elides rest)
wire_fields true ((k, plain (quoted s)) ∷ rest) = put_text k s (wire_fields true rest)
wire_fields elides ((k, plain leaf) ∷ rest) = field k (wire_leaf leaf) (wire_fields elides rest)

-- The JSON object, from what Debug shows.
abbrev wire_of : DebugStruct → Fields
wire_of d = elim d.fields [
  | [] ↦ end
  | (k, shown) ∷ rest ↦ field "type" (string (wire_tag d.name)) (elim shown [
    | plain id ↦ field k (wire_leaf id) (wire_fields (str_eq d.name "SetConfig") rest)
    | _ ↦ end
  ])
]

option_field :
    {A : Type 0} (leaf : A → Leaf) (k : String) (o : Option A) (rest : List (String × Shown))
    → wire_fields false ((k, show_option leaf o) ∷ rest)
      ≡ put_some (λ a. wire_leaf (leaf a)) k o (wire_fields false rest)
unfolding show_option put_some
option_field leaf k none rest = refl
option_field leaf k (some a) rest = refl

rows_and_terse :
    (rows : Option ℕ) (terse : Option Bool)
    → wire_fields false (rows_field rows ∷ terse_field terse ∷ []) ≡ put_rows rows (put_terse terse)
rows_and_terse rows terse =
    option_field num "rows" rows (terse_field terse ∷ [])
    ∙ ap (put_rows rows) (option_field flag "terse" terse [])

-- Debug shows all that goes on the wire: the JSON object of a request can be told from it.
pub wire_of-debug_request : (q : Request) → wire_of (debug_request q) ≡ encode_request q
unfolding debug_request encode_request
wire_of-debug_request (connect id technique application props) =
    ap
      (λ fs. field "type" (string "connect") (
        field "id" (string id)
          (field "technique" (string technique) (field "application" (string application) fs))))
      (option_field quoted "props" props [])
wire_of-debug_request (sql id text rows parameters terse) =
    ap (λ fs. field "type" (string "sql") (field "id" (string id) (field "sql" (string text) fs)))
      (option_field num "rows" rows
          (("parameters", show_option values parameters) ∷ terse_field terse ∷ [])
        ∙ ap (put_rows rows) (
            option_field values "parameters" parameters (terse_field terse ∷ [])
            ∙ ap (put_values parameters) (option_field flag "terse" terse [])))
wire_of-debug_request (prepare_sql id text terse) =
    ap
      (λ fs.
        field "type" (string "prepare_sql") (field "id" (string id) (field "sql" (string text) fs)))
      (option_field flag "terse" terse [])
wire_of-debug_request (prepare_sql_execute id text parameters rows terse) =
    ap
      (λ fs.
        field "type" (string "prepare_sql_execute")
          (field "id" (string id) (field "sql" (string text) fs)))
      (option_field sets "parameters" parameters (rows_field rows ∷ terse_field terse ∷ [])
        ∙ ap (put_sets parameters) (rows_and_terse rows terse))
wire_of-debug_request (execute id cont_id parameters rows terse) =
    ap
      (λ fs.
        field "type" (string "execute")
          (field "id" (string id) (field "cont_id" (string cont_id) fs)))
      (option_field values "parameters" parameters (rows_field rows ∷ terse_field terse ∷ [])
        ∙ ap (put_values parameters) (rows_and_terse rows terse))
wire_of-debug_request (sql_more id cont_id rows) = refl
wire_of-debug_request (sql_close id cont_id) = refl
wire_of-debug_request (cl id cmd terse) =
    ap (λ fs. field "type" (string "cl") (field "id" (string id) (field "cmd" (string cmd) fs)))
      (option_field flag "terse" terse [])
wire_of-debug_request (get_version id) = refl
wire_of-debug_request (get_db_job id) = refl
wire_of-debug_request (set_config id tracelevel tracedest) = refl
wire_of-debug_request (get_trace_data id) = refl
wire_of-debug_request (dove id text run rows terse) =
    ap (λ fs. field "type" (string "dove") (field "id" (string id) (field "sql" (string text) fs)))
      (option_field flag "run" run (rows_field rows ∷ terse_field terse ∷ [])
        ∙ ap (put_some bool "run" run) (rows_and_terse rows terse))
wire_of-debug_request (ping id) = refl
wire_of-debug_request (exit id) = refl

-- Requests that can be written are told apart by what Debug shows of them.
pub debug_request_injective :
    (p q : Request) → IsWritable p → IsWritable q → debug_request p ≡ debug_request q → p ≡ q
debug_request_injective p q fits fits' h =
    let same : encode_request p ≡ encode_request q =
      sym (wire_of-debug_request p) ∙ ap wire_of h ∙ wire_of-debug_request q in
    ok_eq p q (decode_request (encode_request p)) (decode_request-encode_request p fits)
      (ap decode_request same ∙ decode_request-encode_request q fits')
