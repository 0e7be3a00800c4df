-- ===== src/Protocol/RoundTrip/Response.antt =====
-- src/protocol/response.rs and decode.rs: responses read back as they were written.
use mapepire_rs.Prelude.{
  ◌≡◌, ◌≢◌, refl, ap, String, Bool, Option, none, some, List, [], ◌∷◌, All, ok, ◌>>=◌, map_err,
}
use mapepire_rs.Protocol.Json.{
  Value, null, bool, number, string, array, object, end, get, get_str, remove, contains_key,
}
use mapepire_rs.Protocol.Rendering.{Rendering}
use mapepire_rs.Protocol.Response.{
  ClMessage, ErrorResponse, Response, connected, pong, exited, query_result, prepared_statement,
  sql_closed, cl_result, version, db_job, config_set, trace_data, dove_result, error,
}
use mapepire_rs.Protocol.Serde.{de_value, optional}
use mapepire_rs.Protocol.Decode.{
  decode_value, decode_tagged, de_error_response, decode_dove, de_dove_body, dove_from_body,
  de_cl_message, de_prepared_statement,
}
use mapepire_rs.Protocol.Encode.Fields.{put_some}
use mapepire_rs.Protocol.Encode.Response.{
  verbatim, encode_response, encode_error_response, encode_cl_message,
}
use mapepire_rs.Protocol.RoundTrip.Fields.{step, optional-other}
use mapepire_rs.Protocol.RoundTrip.Bodies.{text_back, message_back, de_vec-of_vec, value_skipped}
use mapepire_rs.Protocol.RoundTrip.Results.{FitsI32, i32_back}
use mapepire_rs.Protocol.RoundTrip.Result.{FitsResult, query_result_back}

-- The numbers of a response fit their types, and its optional JSON values are not `null`.
unfoldable pub FitsResponse : Response → Type 0
FitsResponse (query_result q) = FitsResult q
FitsResponse (dove_result id success vedata vemetadata) = vemetadata ≢ some null
FitsResponse (error e) = FitsI32 e.sqlcode
FitsResponse _ = Unit

error_response_back :
    (e : ErrorResponse) → FitsI32 e.sqlcode → de_error_response (encode_error_response e) ≡ ok e
unfolding de_error_response get
error_response_back e c = step _ (text_back "sqlstate" e.sqlstate) (
    step _ (i32_back "sqlcode" e.sqlcode c)
      (step _ (text_back "error" e.error) (step _ (text_back "job" e.job) refl)))

messages :
    (ms : List ClMessage) → All (λ m. de_cl_message "messages" (encode_cl_message m) ≡ ok m) ms
messages [] = tt
messages (m ∷ ms) = (message_back "messages" m, messages ms)

-- The last two fields of an explain tree, over what is known of its tree.
tree_back :
    (r : Rendering) (id : String) (success : Bool) (tree : Option Value) (m : Option Value)
    → m ≢ some null
    → map_err r.serde_text (
        (optional de_value "vemetadata" (put_some verbatim "vemetadata" m end) >>= λ meta.
        optional de_value "result" (put_some verbatim "vemetadata" m end) >>= λ result.
        ok (record {
          id = id;
          success = success;
          vedata = tree;
          vemetadata = meta;
          result = result;
        }))
        >>= λ b. ok (dove_from_body b))
      ≡ ok (
          dove_from_body
            (record { id = id; success = success; vedata = tree; vemetadata = m; result = none }))
unfolding get
tree_back r id success tree m h =
    ap (λ d. map_err r.serde_text (d >>= λ b. ok (dove_from_body b)))
      (step _ (value_skipped "vemetadata" m end refl refl h)
        (step _ (optional-other verbatim de_value "vemetadata" "result" m end refl) refl))

dove_back :
    (r : Rendering) (id : String) (success : Bool) (vedata : Value) (vemetadata : Option Value)
    → vemetadata ≢ some null
    → decode_value r (object (encode_response (dove_result id success vedata vemetadata)))
      ≡ ok (dove_result id success vedata vemetadata)
unfolding decode_value decode_tagged encode_response get get_str remove contains_key decode_dove
    de_dove_body dove_from_body
dove_back r id success null m h = tree_back r id success none m h
dove_back r id success (bool b) m h = tree_back r id success (some (bool b)) m h
dove_back r id success (number n) m h = tree_back r id success (some (number n)) m h
dove_back r id success (string t) m h = tree_back r id success (some (string t)) m h
dove_back r id success (array vs) m h = tree_back r id success (some (array vs)) m h
dove_back r id success (object fs) m h = tree_back r id success (some (object fs)) m h

-- A response whose numbers fit their types, and whose optional JSON values are not `null`, reads
-- back from its JSON object as it was.
pub decode_value-encode_response :
    (r : Rendering) (x : Response)
    → FitsResponse x
    → decode_value r (object (encode_response x)) ≡ ok x
unfolding decode_value decode_tagged encode_response get get_str remove contains_key FitsResponse
    de_prepared_statement decode_dove de_dove_body dove_from_body
decode_value-encode_response r (connected id text job) h = refl
decode_value-encode_response r (pong id) h = refl
decode_value-encode_response r (exited id) h = refl
decode_value-encode_response r (query_result q) h =
    ap (λ d. map_err r.serde_text (d >>= λ x. ok (query_result x))) (query_result_back r q h)
decode_value-encode_response r (prepared_statement id success cont_id time) h = refl
decode_value-encode_response r (sql_closed id success) h = refl
decode_value-encode_response r (cl_result id success ms) h =
    ap (λ d. map_err r.serde_text (d >>= λ m. ok (cl_result id success m)))
      (de_vec-of_vec encode_cl_message de_cl_message "messages" ms (messages ms))
decode_value-encode_response r (version id success text) h = refl
decode_value-encode_response r (db_job id success job) h = refl
decode_value-encode_response r (config_set id success) h = refl
decode_value-encode_response r (trace_data id success tracedata) h = refl
decode_value-encode_response r (dove_result id success vedata vemetadata) h =
    dove_back r id success vedata vemetadata h
decode_value-encode_response r (error e) h =
    ap (λ d. map_err r.serde_text (d >>= λ x. ok (error x))) (error_response_back e h)
