-- ===== src/Protocol/RoundTrip/Request.antt =====
-- src/protocol/request.rs: requests read back as they were written.
use mapepire_rs.Prelude.{
  ℕ, String, Bool, Option, none, some, List, ◌≡◌, refl, false, ok, map_err, ◌∙◌, ap,
}
use mapepire_rs.Protocol.Json.{get_str, Value, bool, string, Fields, get, end}
use mapepire_rs.Protocol.Serde.{
  custom, default, de_string, de_bool, de_u32, de_value, de_vec, de_option,
}
use mapepire_rs.Protocol.Params.{Sets, is_ambiguous, serialize, deserialize-serialize}
use mapepire_rs.Protocol.Request.{
  Request, connect, sql, prepare_sql, prepare_sql_execute, execute, sql_more, sql_close, cl,
  get_version, get_db_job, set_config, get_trace_data, dove, ping, exit,
}
use mapepire_rs.Protocol.Encode.Fields.{put_some, of_u32, of_values}
use mapepire_rs.Transport.Kinds.{request_id}
use mapepire_rs.Protocol.Encode.Request.{put_sets, encode_request}
use mapepire_rs.Protocol.Encode.ReadRequest.{de_sets, decode_request}
use mapepire_rs.Protocol.RoundTrip.Fields.{
  get-put_some, default-other, optional-other, get-put_text, step, default-other_text,
  optional-put_some, default-put_text,
}
use mapepire_rs.Protocol.RoundTrip.RequestFields.{
  FitsU32, IsWritable, rows_back, bool_back, values_back, absent, terse_back,
}

sql_back :
    (id text : String) (rows : Option ℕ) (vs : Option (List Value)) (terse : Option Bool)
    → FitsU32 rows
    → decode_request (encode_request (sql id text rows vs terse)) ≡ ok (sql id text rows vs terse)
unfolding decode_request encode_request get mapepire_rs.Protocol.Json.remove
sql_back id text rows vs terse h =
    step _
      (rows_back rows _
        (get-put_some of_values "parameters" "rows" vs _ refl
          ∙ absent bool "terse" "rows" terse refl)
        h)
      (step _
        (optional-other of_u32 (de_vec de_value) "rows" "parameters" rows _ refl
          ∙ values_back vs _ (absent bool "terse" "parameters" terse refl))
        (step _
          (optional-other of_u32 de_bool "rows" "terse" rows _ refl
            ∙ optional-other of_values de_bool "parameters" "terse" vs _ refl
            ∙ terse_back terse)
          refl))

execute_back :
    (id cont_id : String) (vs : Option (List Value)) (rows : Option ℕ) (terse : Option Bool)
    → FitsU32 rows
    → decode_request (encode_request (execute id cont_id vs rows terse))
      ≡ ok (execute id cont_id vs rows terse)
unfolding decode_request encode_request get mapepire_rs.Protocol.Json.remove
execute_back id cont_id vs rows terse h =
    step _
      (values_back vs _ (
        get-put_some of_u32 "rows" "parameters" rows _ refl
        ∙ absent bool "terse" "parameters" terse refl))
      (step _
        (optional-other of_values de_u32 "parameters" "rows" vs _ refl
          ∙ rows_back rows _ (absent bool "terse" "rows" terse refl) h)
        (step _
          (optional-other of_values de_bool "parameters" "terse" vs _ refl
            ∙ optional-other of_u32 de_bool "rows" "terse" rows _ refl
            ∙ terse_back terse)
          refl))

de_sets_back :
    (sets : Sets)
    → is_ambiguous (some sets) ≡ false
    → de_sets "parameters" (serialize (some sets)) ≡ ok (some sets)
de_sets_back sets h = ap (map_err custom) (deserialize-serialize (some sets) h)

sets_back :
    (sets : Option Sets) (fs : Fields)
    → get "parameters" fs ≡ none
    → is_ambiguous sets ≡ false
    → default none de_sets "parameters" (put_sets sets fs) ≡ ok sets
unfolding put_some get
sets_back none fs g h = ap (λ v. elim v [ none ↦ ok none | some w ↦ de_sets "parameters" w ]) g
sets_back (some sets) fs g h = de_sets_back sets h

prepare_sql_execute_back :
    (id text : String) (sets : Option Sets) (rows : Option ℕ) (terse : Option Bool)
    → is_ambiguous sets ≡ false
    → FitsU32 rows
    → decode_request (encode_request (prepare_sql_execute id text sets rows terse))
      ≡ ok (prepare_sql_execute id text sets rows terse)
unfolding decode_request encode_request get mapepire_rs.Protocol.Json.remove
prepare_sql_execute_back id text sets rows terse a h =
    step _
      (sets_back sets _
        (get-put_some of_u32 "rows" "parameters" rows _ refl
          ∙ absent bool "terse" "parameters" terse refl)
        a)
      (step _
        (default-other _ (de_option de_u32) none "parameters" "rows" sets _ refl
          ∙ rows_back rows _ (absent bool "terse" "rows" terse refl) h)
        (step _
          (default-other _ (de_option de_bool) none "parameters" "terse" sets _ refl
            ∙ optional-other of_u32 de_bool "rows" "terse" rows _ refl
            ∙ terse_back terse)
          refl))

dove_back :
    (id text : String) (run : Option Bool) (rows : Option ℕ) (terse : Option Bool)
    → FitsU32 rows
    → decode_request (encode_request (dove id text run rows terse))
      ≡ ok (dove id text run rows terse)
unfolding decode_request encode_request get mapepire_rs.Protocol.Json.remove
dove_back id text run rows terse h =
    step _
      (bool_back "run" run _
        (get-put_some of_u32 "rows" "run" rows _ refl ∙ absent bool "terse" "run" terse refl) refl)
      (step _
        (optional-other bool de_u32 "run" "rows" run _ refl
          ∙ rows_back rows _ (absent bool "terse" "rows" terse refl) h)
        (step _
          (optional-other bool de_bool "run" "terse" run _ refl
            ∙ optional-other of_u32 de_bool "rows" "terse" rows _ refl
            ∙ terse_back terse)
          refl))

set_config_back :
    (id level dest : String)
    → decode_request (encode_request (set_config id level dest)) ≡ ok (set_config id level dest)
unfolding decode_request encode_request get mapepire_rs.Protocol.Json.remove
set_config_back id level dest =
    step _
      (default-put_text "tracelevel" level _ (get-put_text "tracedest" "tracelevel" dest end refl)
        refl)
      (step _
        (default-other_text de_string "" "tracelevel" "tracedest" level _ refl
          ∙ default-put_text "tracedest" dest end refl refl)
        refl)

-- A request whose page size fits a u32, and whose parameter sets are not a single set of arrays,
-- reads back from its JSON object as it was.
pub decode_request-encode_request :
    (q : Request) → IsWritable q → decode_request (encode_request q) ≡ ok q
unfolding decode_request encode_request get mapepire_rs.Protocol.Json.remove IsWritable
decode_request-encode_request (connect i t a p) h =
    step _ (optional-put_some string de_string "props" p end refl refl (λ a e. refl)) refl
decode_request-encode_request (sql id text rows vs terse) h = sql_back id text rows vs terse h
decode_request-encode_request (prepare_sql id text terse) h = step _ (terse_back terse) refl
decode_request-encode_request (prepare_sql_execute id text sets rows terse) h =
    prepare_sql_execute_back id text sets rows terse h.0 h.1
decode_request-encode_request (execute id c vs rows terse) h = execute_back id c vs rows terse h
decode_request-encode_request (sql_more id c rows) h = rw (h) refl
decode_request-encode_request (sql_close id c) h = refl
decode_request-encode_request (cl id cmd terse) h = step _ (terse_back terse) refl
decode_request-encode_request (get_version id) h = refl
decode_request-encode_request (get_db_job id) h = refl
decode_request-encode_request (set_config id level dest) h = set_config_back id level dest
decode_request-encode_request (get_trace_data id) h = refl
decode_request-encode_request (dove id text run rows terse) h = dove_back id text run rows terse h
decode_request-encode_request (ping id) h = refl
decode_request-encode_request (exit id) h = refl

-- The id under which the dispatcher files a request is the id that its JSON object carries.
pub get_str-encode_request : (q : Request) → get_str "id" (encode_request q) ≡ some (request_id q)
unfolding encode_request get get_str request_id
get_str-encode_request (connect i t a p) = refl
get_str-encode_request (sql i t r p b) = refl
get_str-encode_request (prepare_sql i t b) = refl
get_str-encode_request (prepare_sql_execute i t p r b) = refl
get_str-encode_request (execute i c p r b) = refl
get_str-encode_request (sql_more i c r) = refl
get_str-encode_request (sql_close i c) = refl
get_str-encode_request (cl i c b) = refl
get_str-encode_request (get_version i) = refl
get_str-encode_request (get_db_job i) = refl
get_str-encode_request (set_config i l d) = refl
get_str-encode_request (get_trace_data i) = refl
get_str-encode_request (dove i t u r b) = refl
get_str-encode_request (ping i) = refl
get_str-encode_request (exit i) = refl
