-- ===== src/Protocol/RoundTrip/Range.antt =====
-- src/protocol/decode.rs: what is decoded fits the types of src/protocol/response.rs.
use mapepire_rs.Prelude.{
  ℕ, ◌≡◌, refl, subst, String, true, false, Option, List, [], ◌∷◌, All, ltb, ok, bind_ok, map_err,
}
use mapepire_rs.Protocol.Json.{Value, Fields}
use mapepire_rs.Protocol.Serde.{
  Decoder, de_string, de_bool, de_value, de_f64, de_u32, de_i32, de_i64, de_vec, struct_fields,
  required, default, optional, aliased,
}
use mapepire_rs.Protocol.Rendering.{Rendering}
use mapepire_rs.Protocol.Response.{
  ℤ, pos, Column, ParameterDetail, ParameterResult, QueryMetaData, QueryResult, ErrorResponse,
}
use mapepire_rs.Protocol.Response.Rows.{named_rows_from_wire}
use mapepire_rs.Protocol.Decode.{
  de_column, de_parameter_detail, de_parameter_result, de_metadata, de_error_response,
  de_query_result, de_query_result_raw, finish_query_result, QueryResultDe, no_metadata, zero_f64,
}
use mapepire_rs.Protocol.RoundTrip.RequestFields.{FitsU32}
use mapepire_rs.Protocol.RoundTrip.Bodies.{FitsColumn, FitsDetail, FitsParameter}
use mapepire_rs.Protocol.RoundTrip.Results.{FitsMetadata, FitsInt, FitsI32}
use mapepire_rs.Protocol.RoundTrip.Result.{FitsResult}
use mapepire_rs.Protocol.RoundTrip.Decoded.{
  ok_eq, de_u32-lt, de_i32-FitsInt, de_i64-FitsInt, default-all, vec-all, aliased-all, optional-all,
  value-ne-null,
}

IsU32 : ℕ → Type 0
IsU32 n = ltb n 4294967296 ≡ true

u32 : (k : String) (v : Value) (n : ℕ) → de_u32 k v ≡ ok n → IsU32 n
unfolding IsU32
u32 = de_u32-lt

optional_u32 : (k : String) (fs : Fields) (o : Option ℕ) → optional de_u32 k fs ≡ ok o → FitsU32 o
unfolding FitsU32 IsU32
optional_u32 k fs o h = optional-all IsU32 de_u32 u32 k fs o h

default-IsU32 : (k : String) (fs : Fields) (n : ℕ) → default 0 de_u32 k fs ≡ ok n → IsU32 n
unfolding IsU32
default-IsU32 k fs n h = default-all IsU32 de_u32 u32 k 0 fs n refl h

default_vec :
    {A : Type 0} (P : A → Type 0) (d : Decoder A)
    → ((k : String) (v : Value) (a : A) → d k v ≡ ok a → P a)
    → (k : String) (fs : Fields) (as' : List A) → default [] (de_vec d) k fs ≡ ok as'
    → All P as'
default_vec P d sound k fs as' h =
    default-all (All P) (de_vec d) (vec-all P d sound) k [] fs as' tt h

sqlcode_fits :
    (fs : Fields) (o : Option ℤ) → aliased de_i32 "sqlcode" "sql_rc" fs ≡ ok o → FitsI32 o
unfolding FitsI32
sqlcode_fits fs o h =
    aliased-all (FitsInt 2147483648) de_i32 de_i32-FitsInt "sqlcode" "sql_rc" fs o h

zero_fits : FitsInt 9223372036854775808 (pos 0)
unfolding FitsInt
zero_fits = refl

no_metadata-Fits : FitsMetadata no_metadata
unfolding FitsMetadata
no_metadata-Fits = (refl, tt, tt)

-- The same for a result whose rows are not named yet.
FitsRaw : QueryResultDe → Type 0
FitsRaw q =
    FitsInt 9223372036854775808 q.update_count
    × FitsMetadata q.metadata
    × FitsI32 q.sqlcode
    × FitsU32 q.parameter_count
    × All FitsParameter q.output_parms

de_column-Fits : (k : String) (v : Value) (c : Column) → de_column k v ≡ ok c → FitsColumn c
unfolding de_column FitsColumn
de_column-Fits k v c h =
    let (fs, _, h1) =
      bind_ok
        (struct_fields ("name" ∷ "label" ∷ "type" ∷ "display_size" ∷ "precision" ∷ "scale" ∷ []) k
          v)
        _ c h in
    let (name, _, h2) = bind_ok (required de_string "name" fs) _ c h1 in
    let (label, _, h3) = bind_ok (optional de_string "label" fs) _ c h2 in
    let (type_name, _, h4) = bind_ok (optional de_string "type" fs) _ c h3 in
    let (size, a, h5) = bind_ok (optional de_u32 "display_size" fs) _ c h4 in
    let (precision, b, h6) = bind_ok (optional de_u32 "precision" fs) _ c h5 in
    let (scale, e, h7) = bind_ok (optional de_u32 "scale" fs) _ c h6 in
    subst FitsColumn (ok_eq _ c _ refl h7) (
      optional_u32 "display_size" fs size a,
      optional_u32 "precision" fs precision b,
      optional_u32 "scale" fs scale e,
    )

de_parameter_detail-Fits :
    (k : String) (v : Value) (c : ParameterDetail) → de_parameter_detail k v ≡ ok c → FitsDetail c
unfolding de_parameter_detail FitsDetail IsU32
de_parameter_detail-Fits k v c h =
    let (fs, _, h1) =
      bind_ok (struct_fields ("type" ∷ "mode" ∷ "precision" ∷ "scale" ∷ "name" ∷ []) k v) _ c h in
    let (type_name, _, h2) = bind_ok (default "" de_string "type" fs) _ c h1 in
    let (mode, _, h3) = bind_ok (default "" de_string "mode" fs) _ c h2 in
    let (precision, a, h4) = bind_ok (default 0 de_u32 "precision" fs) _ c h3 in
    let (scale, b, h5) = bind_ok (optional de_u32 "scale" fs) _ c h4 in
    let (name, _, h6) = bind_ok (default "" de_string "name" fs) _ c h5 in
    subst FitsDetail (ok_eq _ c _ refl h6)
      (default-IsU32 "precision" fs precision a, optional_u32 "scale" fs scale b)

de_parameter_result-Fits :
    (k : String) (v : Value) (c : ParameterResult)
    → de_parameter_result k v ≡ ok c
    → FitsParameter c
unfolding de_parameter_result FitsParameter IsU32
de_parameter_result-Fits k v c h =
    let (fs, _, h1) =
      bind_ok
        (struct_fields ("index" ∷ "type" ∷ "precision" ∷ "scale" ∷ "name" ∷ "ccsid" ∷ "value" ∷ [])
          k v)
        _ c h in
    let (index, i, h2) = bind_ok (default 0 de_u32 "index" fs) _ c h1 in
    let (type_name, _, h3) = bind_ok (default "" de_string "type" fs) _ c h2 in
    let (precision, a, h4) = bind_ok (default 0 de_u32 "precision" fs) _ c h3 in
    let (scale, b, h5) = bind_ok (optional de_u32 "scale" fs) _ c h4 in
    let (name, _, h6) = bind_ok (default "" de_string "name" fs) _ c h5 in
    let (ccsid, e, h7) = bind_ok (optional de_u32 "ccsid" fs) _ c h6 in
    let (value, f, h8) = bind_ok (optional de_value "value" fs) _ c h7 in
    subst FitsParameter (ok_eq _ c _ refl h8) (
      default-IsU32 "index" fs index i,
      default-IsU32 "precision" fs precision a,
      optional_u32 "scale" fs scale b,
      optional_u32 "ccsid" fs ccsid e,
      value-ne-null "value" fs value f,
    )

de_metadata-Fits :
    (k : String) (v : Value) (c : QueryMetaData) → de_metadata k v ≡ ok c → FitsMetadata c
unfolding de_metadata FitsMetadata IsU32
de_metadata-Fits k v c h =
    let (fs, _, h1) =
      bind_ok (struct_fields ("column_count" ∷ "columns" ∷ "job" ∷ "parameters" ∷ []) k v) _ c h in
    let (count, a, h2) = bind_ok (default 0 de_u32 "column_count" fs) _ c h1 in
    let (columns, b, h3) = bind_ok (default [] (de_vec de_column) "columns" fs) _ c h2 in
    let (job, _, h4) = bind_ok (optional de_string "job" fs) _ c h3 in
    let (parameters, e, h5) =
      bind_ok (default [] (de_vec de_parameter_detail) "parameters" fs) _ c h4 in
    subst FitsMetadata (ok_eq _ c _ refl h5) (
      default-IsU32 "column_count" fs count a,
      default_vec FitsColumn de_column de_column-Fits "columns" fs columns b,
      default_vec FitsDetail de_parameter_detail de_parameter_detail-Fits "parameters" fs parameters
          e,
    )

pub de_error_response-Fits :
    (fs : Fields) (c : ErrorResponse) → de_error_response fs ≡ ok c → FitsI32 c.sqlcode
unfolding de_error_response FitsI32
de_error_response-Fits fs c h =
    let (id, _, h1) = bind_ok (required de_string "id" fs) _ c h in
    let (success, _, h2) = bind_ok (required de_bool "success" fs) _ c h1 in
    let (sqlstate, _, h3) = bind_ok (aliased de_string "sqlstate" "sql_state" fs) _ c h2 in
    let (sqlcode, a, h4) = bind_ok (aliased de_i32 "sqlcode" "sql_rc" fs) _ c h3 in
    let (error, _, h5) = bind_ok (optional de_string "error" fs) _ c h4 in
    let (job, _, h6) = bind_ok (optional de_string "job" fs) _ c h5 in
    subst (λ x. FitsI32 x.sqlcode) (ok_eq _ c _ refl h6) (sqlcode_fits fs sqlcode a)

raw-Fits : (fs : Fields) (c : QueryResultDe) → de_query_result_raw fs ≡ ok c → FitsRaw c
unfolding de_query_result_raw FitsRaw FitsI32 IsU32
raw-Fits fs c h =
    let (id, _, h1) = bind_ok (required de_string "id" fs) _ c h in
    let (success, _, h2) = bind_ok (required de_bool "success" fs) _ c h1 in
    let (has_results, _, h3) = bind_ok (default false de_bool "has_results" fs) _ c h2 in
    let (update_count, a, h4) = bind_ok (default (pos 0) de_i64 "update_count" fs) _ c h3 in
    let (cont_id, _, h5) = bind_ok (optional de_string "cont_id" fs) _ c h4 in
    let (is_done, _, h6) = bind_ok (optional de_bool "is_done" fs) _ c h5 in
    let (metadata, b, h7) = bind_ok (default no_metadata de_metadata "metadata" fs) _ c h6 in
    let (values, _, h8) = bind_ok (default [] (de_vec de_value) "data" fs) _ c h7 in
    let (time, _, h9) = bind_ok (default zero_f64 de_f64 "execution_time" fs) _ c h8 in
    let (error, _, h10) = bind_ok (optional de_string "error" fs) _ c h9 in
    let (sqlcode, e, h11) = bind_ok (aliased de_i32 "sqlcode" "sql_rc" fs) _ c h10 in
    let (sqlstate, _, h12) = bind_ok (aliased de_string "sqlstate" "sql_state" fs) _ c h11 in
    let (count, f, h13) = bind_ok (optional de_u32 "parameter_count" fs) _ c h12 in
    let (parms, g, h14) =
      bind_ok (default [] (de_vec de_parameter_result) "output_parms" fs) _ c h13 in
    subst FitsRaw (ok_eq _ c _ refl h14) (
      default-all (FitsInt 9223372036854775808) de_i64 de_i64-FitsInt "update_count" (pos 0) fs
          update_count zero_fits a,
      default-all FitsMetadata de_metadata de_metadata-Fits "metadata" no_metadata fs metadata
          no_metadata-Fits b,
      sqlcode_fits fs sqlcode e,
      optional_u32 "parameter_count" fs count f,
      default_vec FitsParameter de_parameter_result de_parameter_result-Fits "output_parms" fs parms
          g,
    )

-- A decoded result fits its types.
pub de_query_result-Fits :
    (r : Rendering) (fs : Fields) (q : QueryResult) → de_query_result r fs ≡ ok q → FitsResult q
unfolding de_query_result finish_query_result FitsResult FitsRaw
de_query_result-Fits r fs q h =
    let (raw, a, h1) = bind_ok (de_query_result_raw fs) _ q h in
    let (rows, b, h2) =
      bind_ok (map_err _ (named_rows_from_wire r.value_text raw.metadata raw.values)) _ q h1 in
    subst FitsResult (ok_eq _ q _ refl h2) (raw-Fits fs raw a)
