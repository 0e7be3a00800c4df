-- ===== src/Protocol/RoundTrip/Results.antt =====
-- src/protocol/response.rs: a query result reads back as it was written.
use mapepire_rs.Prelude.{
  ℕ, ◌≡◌, refl, ap, ◌∙◌, String, true, false, Option, none, some, List, [], ◌∷◌, ◌+◌, All, ltb, map,
  ok,
}
use mapepire_rs.Prelude.Text.{str_eq}
use mapepire_rs.Protocol.Json.{Value, string, object, Fields, end, get}
use mapepire_rs.Protocol.Serde.{
  Decoder, de_string, de_value, de_i32, de_i64, de_vec, de_option, default,
}
use mapepire_rs.Protocol.Response.{ℤ, pos, negsuc, Column, QueryMetaData}
use mapepire_rs.Protocol.Response.Rows.{named_row, named_rows}
use mapepire_rs.Protocol.Decode.{de_column, de_parameter_detail, de_metadata}
use mapepire_rs.Protocol.Encode.Fields.{put_vec, of_option, of_vec, of_int}
use mapepire_rs.Protocol.Encode.Response.{encode_column, encode_parameter_detail, encode_metadata}
use mapepire_rs.Protocol.RoundTrip.Fields.{step, get_self, default-other, optional-put_some}
use mapepire_rs.Protocol.RoundTrip.Bodies.{
  FitsColumn, FitsDetail, column_back, detail_back, u32_plain, nullable, de_vec-of_vec,
}

pub All-map :
    {A : Type 0} {P Q : A → Type 0} (f : (a : A) → P a → Q a) (as' : List A) → All P as' → All Q as'
All-map f [] h = tt
All-map f (a ∷ as') h = (f a h.0, All-map f as' h.1)

-- A vector that is left out when it is empty.
pub put_vec_back :
    {A : Type 0} (encode : A → Value) (d : Decoder A) (k : String) (as' : List A)
    → str_eq k k ≡ true
    → All (λ a. d k (encode a) ≡ ok a) as'
    → default [] (de_vec d) k (put_vec encode k as' end) ≡ ok as'
unfolding put_vec get
put_vec_back encode d k [] e h = refl
put_vec_back encode d k (a ∷ as') e h =
    ap (λ v. elim v [ none ↦ ok [] | some w ↦ de_vec d k w ]) (get_self k _ end e)
    ∙ de_vec-of_vec encode d k (a ∷ as') h

pub get-put_vec :
    {A : Type 0} (encode : A → Value) (j k : String) (as' : List A)
    → str_eq j k ≡ false
    → get k (put_vec encode j as' end) ≡ none
unfolding put_vec get
get-put_vec encode j k [] h = refl
get-put_vec encode j k (a ∷ as') h = rw (h) refl

unfoldable pub FitsMetadata : QueryMetaData → Type 0
FitsMetadata m =
    (ltb m.column_count 4294967296 ≡ true) × All FitsColumn m.columns × All FitsDetail m.parameters

pub metadata_back :
    (k : String) (m : QueryMetaData) → FitsMetadata m → de_metadata k (encode_metadata m) ≡ ok m
unfolding de_metadata FitsMetadata get
metadata_back k m (n, c, p) = step _ (u32_plain "column_count" m.column_count n) (
    step _
      (de_vec-of_vec encode_column de_column "columns" m.columns
        (All-map (column_back "columns") m.columns c))
      (step _
        (optional-put_some string de_string "job" m.job _
          (get-put_vec encode_parameter_detail "parameters" "job" m.parameters refl) refl
          (λ a q. refl))
        (step _
          (default-other string (de_vec de_parameter_detail) [] "job" "parameters" m.job _ refl
            ∙ put_vec_back encode_parameter_detail de_parameter_detail "parameters" m.parameters
                refl (All-map (detail_back "parameters") m.parameters p))
          refl)))

-- i32 and i64: `half` is 2^31 or 2^63.
unfoldable pub FitsInt : ℕ → ℤ → Type 0
FitsInt half (pos n) = ltb n half ≡ true
FitsInt half (negsuc n) = ltb n half ≡ true

unfoldable pub FitsI32 : Option ℤ → Type 0
FitsI32 o = (z : ℤ) → o ≡ some z → FitsInt 2147483648 z

pub i64_plain : (k : String) (z : ℤ) → FitsInt 9223372036854775808 z → de_i64 k (of_int z) ≡ ok z
unfolding FitsInt
i64_plain k (pos n) h = rw (h) refl
i64_plain k (negsuc n) h = rw (h) refl

pub i32_some :
    (k : String) (z : ℤ) → FitsInt 2147483648 z → de_option de_i32 k (of_int z) ≡ ok (some z)
unfolding FitsInt
i32_some k (pos n) h = rw (h) refl
i32_some k (negsuc n) h = rw (h) refl

pub i32_back :
    (k : String) (o : Option ℤ) → FitsI32 o → de_option de_i32 k (of_option of_int o) ≡ ok o
unfolding FitsI32
i32_back k o h = nullable of_int de_i32 k o (λ z e. i32_some k z (h z e))

pub rows_back :
    (display : Value → String) (idx : ℕ) (columns : List Column) (rows : List Fields)
    → named_rows display idx columns (map object rows) ≡ ok rows
unfolding named_rows named_row
rows_back display idx columns [] = refl
rows_back display idx columns (row ∷ rows) = step _ (rows_back display (idx + 1) columns rows) refl

pub data_back :
    (k : String) (rows : List Fields)
    → de_vec de_value k (of_vec object rows) ≡ ok (map object rows)
data_back k [] = refl
data_back k (row ∷ rows) = step _ (data_back k rows) refl
