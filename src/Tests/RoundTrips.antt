-- ===== src/Tests/RoundTrips.antt =====
-- Instances for the encodings of src/protocol/request.rs and response.rs.
use mapepire_rs.Debug.Faithful.{debug_request_injective}
use mapepire_rs.Prelude.{◌≡◌, refl, subst, ltb, true, false, none, some, List, [], ◌∷◌, map, ok}
use mapepire_rs.Protocol.Json.{
  Value, null, bool, array, object, get, get_str, get_bool, contains_key, of_list,
}
use mapepire_rs.Protocol.Response.{negsuc, Response, pong, error, Column, QueryMetaData}
use mapepire_rs.Protocol.Response.Rows.{named_rows_from_wire}
use mapepire_rs.Protocol.Request.{Request, sql}
use mapepire_rs.Protocol.Decode.{decode_value}
use mapepire_rs.Protocol.Encode.Request.{encode_request}
use mapepire_rs.Protocol.Encode.ReadRequest.{decode_request}
use mapepire_rs.Protocol.Encode.Response.{encode_response}
use mapepire_rs.Protocol.RoundTrip.RequestFields.{FitsU32, IsWritable}
use mapepire_rs.Protocol.RoundTrip.Request.{decode_request-encode_request}
use mapepire_rs.Protocol.RoundTrip.Results.{FitsInt, FitsI32}
use mapepire_rs.Protocol.RoundTrip.Response.{FitsResponse, decode_value-encode_response}
use mapepire_rs.Protocol.RoundTrip.Stable.{decoded_reads_back}
use mapepire_rs.Protocol.TerseRows.{object_of, terse_as_objects}
use mapepire_rs.Tests.{plain, ack}

abbrev a_request : Request
a_request = sql "a-0" "VALUES ?" (some 100) (some (bool true ∷ [])) none

fits_100 : FitsU32 (some 100)
unfolding FitsU32
fits_100 n e = let q : 100 ≡ n = cc in subst (λ k. ltb k 4294967296 ≡ true) q refl

decode_request-encode_request_example : decode_request (encode_request a_request) ≡ ok a_request
unfolding IsWritable FitsU32
decode_request-encode_request_example = decode_request-encode_request a_request fits_100

abbrev an_error : Response
an_error = error (record {
  id = "a-0";
  success = false;
  sqlstate = some "42704";
  sqlcode = some (negsuc 203);
  error = none;
  job = none;
})

fits_204 : FitsI32 (some (negsuc 203))
unfolding FitsI32 FitsInt
fits_204 z e = let q : negsuc 203 ≡ z = cc in subst (FitsInt 2147483648) q refl

decode_value-encode_response_example :
    decode_value plain (object (encode_response an_error)) ≡ ok an_error
unfolding FitsResponse FitsI32
decode_value-encode_response_example = decode_value-encode_response plain an_error fits_204

ack_decoded : decode_value plain (object (ack "a-0")) ≡ ok (pong "a-0")
unfolding decode_value contains_key get_bool get get_str
ack_decoded = refl

decoded_reads_back_example :
    FitsResponse (pong "a-0")
    × (decode_value plain (object (encode_response (pong "a-0"))) ≡ ok (pong "a-0"))
decoded_reads_back_example = decoded_reads_back plain (object (ack "a-0")) (pong "a-0") ack_decoded

abbrev named : Column
named = record {
  name = "A";
  label = none;
  type_name = none;
  display_size = none;
  precision = none;
  scale = none;
}

abbrev two_columns : QueryMetaData
two_columns = record {
  column_count = 2;
  columns = named ∷ record named { name = "B" } ∷ [];
  job = none;
  parameters = [];
}

abbrev two_rows : List (List Value)
two_rows = (bool true ∷ null ∷ []) ∷ (bool false ∷ bool true ∷ []) ∷ []

terse_as_objects_example :
    named_rows_from_wire plain.value_text two_columns
      (map (λ cells. array (of_list cells)) two_rows)
    ≡ named_rows_from_wire plain.value_text two_columns
        (map (λ cells. object (object_of two_columns.columns cells)) two_rows)
terse_as_objects_example =
    terse_as_objects plain.value_text two_columns two_rows (λ e. cc) ((refl, tt), (tt, tt))
      (refl, (refl, tt))

abbrev more_rows : Request
more_rows = Request.sql_more "a-2" "c" 50

debug_request_injective_example : more_rows ≡ Request.sql_more "a-2" "c" 50
unfolding IsWritable
debug_request_injective_example =
    debug_request_injective more_rows (Request.sql_more "a-2" "c" 50) refl refl refl
