-- ===== src/Protocol/Decode/Untagged.antt =====
-- src/protocol/decode.rs: the untagged frames of a live daemon, told apart by their keys.
use mapepire_rs.Prelude.{
  String, Bool, true, false, ◌&&◌, ◌||◌, not, Option, some, if◌then◌else◌, unwrap_or, Result, ok,
  err, ◌>>=◌, map_err,
}
use mapepire_rs.Protocol.Json.{Value, string, Fields, get, contains_key, get_str, get_bool}
use mapepire_rs.Protocol.Serde.{Decoded}
use mapepire_rs.Protocol.Response.{
  Response, connected, pong, query_result, version, trace_data, error,
}
use mapepire_rs.Protocol.Rendering.{Rendering}
use mapepire_rs.Protocol.Decode.Bodies.{de_error_response, decode_dove}
use mapepire_rs.Protocol.Decode.Result.{de_query_result}
use mapepire_rs.Protocol.Decode.Tagged.{de_prepared_statement}

-- `json_string_or_empty`.
abbrev json_string_or_empty : Option Value → String
json_string_or_empty (some (string s)) = s
json_string_or_empty _ = ""

-- `obj.get(k).and_then(Value::as_str).unwrap_or("")`.
abbrev text_or_empty : String → Fields → String
text_or_empty k fs = unwrap_or (get_str k fs) ""

abbrev has_dove : Fields → Bool
has_dove fs = contains_key "vedata" fs || contains_key "vemetadata" fs

abbrev has_data_keys : Fields → Bool
has_data_keys fs = contains_key "data" fs || contains_key "has_results" fs

unfoldable pub as_result : Rendering → Fields → Decoded Response
as_result r fs = de_query_result r fs >>= λ q. ok (query_result q)

-- Frames with `success: false`.
unfoldable pub decode_failed : Rendering → Fields → Decoded Response
unfolding as_result
decode_failed r fs =
    if has_dove fs
    then decode_dove fs
    else if has_data_keys fs
    then as_result r fs
    else (de_error_response fs >>= λ e. ok (error e))

-- Frames with neither a handle, nor an explain tree, nor result keys.
unfoldable pub decode_ack : Option Bool → Fields → Result Response String
decode_ack success fs =
    if contains_key "job" fs
    then ok
        (connected (text_or_empty "id" fs) (text_or_empty "version" fs) (text_or_empty "job" fs))
    else if contains_key "version" fs
    then ok (version (text_or_empty "id" fs) (unwrap_or success true) (text_or_empty "version" fs))
    else if contains_key "tracedata" fs || contains_key "jtopentracedata" fs
    then ok (
        trace_data (text_or_empty "id" fs) (unwrap_or success true)
          (json_string_or_empty (get "tracedata" fs)))
    else if unwrap_or success false
    then ok (pong (text_or_empty "id" fs))
    else err "unrecognized untagged response object"

abbrev is_false : Option Bool → Bool
is_false (some false) = true
is_false _ = false

unfoldable pub decode_untagged : Rendering → Fields → Result Response String
unfolding decode_failed as_result decode_ack
decode_untagged r fs =
    let success = get_bool "success" fs in
    if is_false success
    then map_err r.serde_text (decode_failed r fs)
    else if contains_key "cont_id" fs
        && not (contains_key "data" fs)
        && not (contains_key "has_results" fs)
    then map_err r.serde_text (de_prepared_statement fs)
    else if has_dove fs
    then map_err r.serde_text (decode_dove fs)
    else if has_data_keys fs
    then map_err r.serde_text (as_result r fs)
    else decode_ack success fs
