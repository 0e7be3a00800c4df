-- ===== src/Protocol/RoundTrip/Result.antt =====
-- src/protocol/response.rs: a whole query result reads back as it was written.
use mapepire_rs.Prelude.{
  ◌≡◌, refl, ap, ap₂, ◌∙◌, String, true, false, Option, none, some, [], All, map_err, ok, err,
}
use mapepire_rs.Prelude.Text.{str_eq}
use mapepire_rs.Protocol.Json.{Value, string, Fields, end, get}
use mapepire_rs.Protocol.Serde.{
  Decoder, custom, duplicate_field, de_string, de_u32, de_i32, de_vec, de_option, default, optional,
  aliased,
}
use mapepire_rs.Protocol.Rendering.{Rendering}
use mapepire_rs.Protocol.Response.{QueryResult}
use mapepire_rs.Protocol.Response.Rows.{named_rows_from_wire}
use mapepire_rs.Protocol.Decode.{
  de_parameter_result, de_query_result, de_query_result_raw, finish_query_result,
}
use mapepire_rs.Protocol.Encode.Fields.{put_some, put_vec, of_u32, of_int}
use mapepire_rs.Protocol.Encode.Response.{
  encode_parameter_result, encode_query_result, put_result_tail,
}
use mapepire_rs.Protocol.RoundTrip.Fields.{
  step, get_self, get-put_some, default-other, optional-put_some,
}
use mapepire_rs.Protocol.RoundTrip.RequestFields.{FitsU32}
use mapepire_rs.Protocol.RoundTrip.Bodies.{FitsParameter, parameter_back, text_back, u32_skipped}
use mapepire_rs.Protocol.RoundTrip.Results.{
  All-map, put_vec_back, get-put_vec, FitsMetadata, metadata_back, FitsInt, FitsI32, i64_plain,
  i32_some, rows_back, data_back,
}

unfoldable pub FitsResult : QueryResult → Type 0
FitsResult q =
    FitsInt 9223372036854775808 q.update_count
    × FitsMetadata q.metadata
    × FitsI32 q.sqlcode
    × FitsU32 q.parameter_count
    × All FitsParameter q.output_parms

-- What an aliased field reads depends on its two keys.
aliased-get :
    {A : Type 0} (d : Decoder A) (k alias : String) (fs gs : Fields)
    → get k fs ≡ get k gs
    → get alias fs ≡ get alias gs
    → aliased d k alias fs ≡ aliased d k alias gs
aliased-get d k alias fs gs h e =
    ap₂
      (λ a b. elim a [
        | none ↦ elim b [ none ↦ ok none | some v ↦ de_option d alias v ]
        | some v ↦ elim b [ none ↦ de_option d k v | some w ↦ err (duplicate_field k) ]
      ])
      h e

aliased-put_some :
    {A : Type 0} (encode : A → Value) (d : Decoder A) (k alias : String) (o : Option A)
    (fs : Fields)
    → get k fs ≡ none
    → get alias fs ≡ none
    → str_eq k k ≡ true
    → str_eq k alias ≡ false
    → ((a : A) → o ≡ some a → de_option d k (encode a) ≡ ok (some a))
    → aliased d k alias (put_some encode k o fs) ≡ ok o
unfolding put_some get
aliased-put_some encode d k alias none fs g e r n h = aliased-get d k alias fs end g e
aliased-put_some encode d k alias (some a) fs g e r n h =
    ap₂
      (λ x y. elim x [
        | none ↦ elim y [ none ↦ ok none | some v ↦ de_option d alias v ]
        | some v ↦ elim y [ none ↦ de_option d k v | some w ↦ err (duplicate_field k) ]
      ])
      (get_self k (encode a) fs r) (get-put_some encode k alias (some a) fs n ∙ e)
    ∙ h a refl

-- The optional fields at the end of a result, from the second on.
abbrev after_error : QueryResult → Fields
after_error q = put_some of_int "sqlcode" q.sqlcode (
    put_some string "sqlstate" q.sqlstate (
      put_some of_u32 "parameter_count" q.parameter_count
        (put_vec encode_parameter_result "output_parms" q.output_parms end)))

abbrev after_sqlcode : QueryResult → Fields
after_sqlcode q = put_some string "sqlstate" q.sqlstate (
    put_some of_u32 "parameter_count" q.parameter_count
      (put_vec encode_parameter_result "output_parms" q.output_parms end))

abbrev after_sqlstate : QueryResult → Fields
after_sqlstate q =
    put_some of_u32 "parameter_count" q.parameter_count
      (put_vec encode_parameter_result "output_parms" q.output_parms end)

-- The keys that the last fields do not have.
none_after_sqlstate :
    (k : String) (q : QueryResult)
    → str_eq "parameter_count" k ≡ false
    → str_eq "output_parms" k ≡ false
    → get k (after_sqlstate q) ≡ none
none_after_sqlstate k q p o =
    get-put_some of_u32 "parameter_count" k q.parameter_count _ p
    ∙ get-put_vec encode_parameter_result "output_parms" k q.output_parms o

none_after_sqlcode :
    (k : String) (q : QueryResult)
    → str_eq "sqlstate" k ≡ false
    → str_eq "parameter_count" k ≡ false
    → str_eq "output_parms" k ≡ false
    → get k (after_sqlcode q) ≡ none
none_after_sqlcode k q s p o =
    get-put_some string "sqlstate" k q.sqlstate _ s ∙ none_after_sqlstate k q p o

none_after_error :
    (k : String) (q : QueryResult)
    → str_eq "sqlcode" k ≡ false
    → str_eq "sqlstate" k ≡ false
    → str_eq "parameter_count" k ≡ false
    → str_eq "output_parms" k ≡ false
    → get k (after_error q) ≡ none
none_after_error k q c s p o =
    get-put_some of_int "sqlcode" k q.sqlcode _ c ∙ none_after_sqlcode k q s p o

error_back : (q : QueryResult) → optional de_string "error" (put_result_tail q) ≡ ok q.error
error_back q =
    optional-put_some string de_string "error" q.error (after_error q)
      (none_after_error "error" q refl refl refl refl) refl (λ a e. refl)

sqlcode_back :
    (q : QueryResult)
    → FitsI32 q.sqlcode
    → aliased de_i32 "sqlcode" "sql_rc" (put_result_tail q) ≡ ok q.sqlcode
unfolding FitsI32
sqlcode_back q h =
    aliased-get de_i32 "sqlcode" "sql_rc" (put_result_tail q) (after_error q)
      (get-put_some string "error" "sqlcode" q.error _ refl)
      (get-put_some string "error" "sql_rc" q.error _ refl)
    ∙ aliased-put_some of_int de_i32 "sqlcode" "sql_rc" q.sqlcode (after_sqlcode q)
        (none_after_sqlcode "sqlcode" q refl refl refl)
        (none_after_sqlcode "sql_rc" q refl refl refl) refl refl
        (λ z e. i32_some "sqlcode" z (h z e))

sqlstate_back :
    (q : QueryResult) → aliased de_string "sqlstate" "sql_state" (put_result_tail q) ≡ ok q.sqlstate
sqlstate_back q =
    aliased-get de_string "sqlstate" "sql_state" (put_result_tail q) (after_sqlcode q)
      (get-put_some string "error" "sqlstate" q.error _ refl
        ∙ get-put_some of_int "sqlcode" "sqlstate" q.sqlcode _ refl)
      (get-put_some string "error" "sql_state" q.error _ refl
        ∙ get-put_some of_int "sqlcode" "sql_state" q.sqlcode _ refl)
    ∙ aliased-put_some string de_string "sqlstate" "sql_state" q.sqlstate (after_sqlstate q)
        (none_after_sqlstate "sqlstate" q refl refl) (none_after_sqlstate "sql_state" q refl refl)
        refl refl (λ a e. refl)

-- The last two fields are read past the first three of the tail.
past_three :
    {B : Type 0} (d : Decoder B) (b : B) (k : String) (q : QueryResult)
    → str_eq "error" k ≡ false
    → str_eq "sqlcode" k ≡ false
    → str_eq "sqlstate" k ≡ false
    → default b d k (put_result_tail q) ≡ default b d k (after_sqlstate q)
past_three d b k q e c s =
    default-other string d b "error" k q.error _ e
    ∙ default-other of_int d b "sqlcode" k q.sqlcode _ c
    ∙ default-other string d b "sqlstate" k q.sqlstate _ s

count_back :
    (q : QueryResult)
    → FitsU32 q.parameter_count
    → optional de_u32 "parameter_count" (put_result_tail q) ≡ ok q.parameter_count
count_back q h =
    past_three (de_option de_u32) none "parameter_count" q refl refl refl
    ∙ u32_skipped "parameter_count" q.parameter_count _
        (get-put_vec encode_parameter_result "output_parms" "parameter_count" q.output_parms refl)
        refl h

parms_back :
    (q : QueryResult)
    → All FitsParameter q.output_parms
    → default [] (de_vec de_parameter_result) "output_parms" (put_result_tail q) ≡ ok q.output_parms
parms_back q h =
    past_three (de_vec de_parameter_result) [] "output_parms" q refl refl refl
    ∙ default-other of_u32 (de_vec de_parameter_result) [] "parameter_count" "output_parms"
        q.parameter_count _ refl
    ∙ put_vec_back encode_parameter_result de_parameter_result "output_parms" q.output_parms refl
        (All-map (parameter_back "output_parms") q.output_parms h)

-- A result whose numbers fit their types, and whose output values are not `null`, reads back.
pub query_result_back :
    (r : Rendering) (q : QueryResult)
    → FitsResult q
    → de_query_result r (encode_query_result q) ≡ ok q
unfolding de_query_result de_query_result_raw finish_query_result FitsResult get
    named_rows_from_wire
query_result_back r q (u, m, c, n, p) =
    step _
      (step _ (i64_plain "update_count" q.update_count u) (
        step _ (text_back "cont_id" q.cont_id) (
          step _ (metadata_back "metadata" q.metadata m) (
            step _ (data_back "data" q.rows) (
              step _ (error_back q) (
                step _ (sqlcode_back q c) (
                  step _ (sqlstate_back q)
                    (step _ (count_back q n) (step _ (parms_back q p) refl)))))))))
      (step _ (ap (map_err custom) (rows_back r.value_text 0 q.metadata.columns q.rows)) refl)
