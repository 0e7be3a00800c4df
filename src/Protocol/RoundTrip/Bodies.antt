-- ===== src/Protocol/RoundTrip/Bodies.antt =====
-- src/protocol/response.rs: the structs inside a response read back as they were written.
use mapepire_rs.Prelude.{
  ℕ, ◌≡◌, ◌≢◌, refl, ap, ◌∙◌, String, true, Option, none, some, List, [], ◌∷◌, All, ltb, ok,
}
use mapepire_rs.Prelude.Text.{str_eq}
use mapepire_rs.Protocol.Json.{Value, null, bool, number, string, array, object, Fields, get}
use mapepire_rs.Protocol.Serde.{Decoder, de_string, de_value, de_u32, de_vec, de_option, optional}
use mapepire_rs.Protocol.Response.{Column, ParameterDetail, ParameterResult, ClMessage}
use mapepire_rs.Protocol.Decode.{de_column, de_parameter_detail, de_parameter_result, de_cl_message}
use mapepire_rs.Protocol.Encode.Fields.{put_some, of_u32, of_option, of_vec}
use mapepire_rs.Protocol.Encode.Response.{
  verbatim, encode_column, encode_parameter_detail, encode_parameter_result, encode_cl_message,
}
use mapepire_rs.Protocol.RoundTrip.Fields.{
  step, default-other, optional-other, optional-put_some, get-put_some,
}
use mapepire_rs.Protocol.RoundTrip.RequestFields.{FitsU32}

-- A nullable field reads back.
pub nullable :
    {A : Type 0} (encode : A → Value) (d : Decoder A) (k : String) (o : Option A)
    → ((a : A) → o ≡ some a → de_option d k (encode a) ≡ ok (some a))
    → de_option d k (of_option encode o) ≡ ok o
nullable encode d k none h = refl
nullable encode d k (some a) h = h a refl

pub text_back : (k : String) (o : Option String) → de_option de_string k (of_option string o) ≡ ok o
text_back k o = nullable string de_string k o (λ a e. refl)

pub u32_some :
    (k : String) (n : ℕ) → ltb n 4294967296 ≡ true → de_option de_u32 k (of_u32 n) ≡ ok (some n)
u32_some k n h = rw (h) refl

pub u32_plain : (k : String) (n : ℕ) → ltb n 4294967296 ≡ true → de_u32 k (of_u32 n) ≡ ok n
u32_plain k n h = rw (h) refl

u32_back : (k : String) (o : Option ℕ) → FitsU32 o → de_option de_u32 k (of_option of_u32 o) ≡ ok o
unfolding FitsU32
u32_back k o h = nullable of_u32 de_u32 k o (λ n e. u32_some k n (h n e))

unfoldable pub FitsColumn : Column → Type 0
FitsColumn c = FitsU32 c.display_size × FitsU32 c.precision × FitsU32 c.scale

pub column_back : (k : String) (c : Column) → FitsColumn c → de_column k (encode_column c) ≡ ok c
unfolding de_column FitsColumn get
column_back k c (d, p, s) = step _ (text_back "label" c.label) (
    step _ (text_back "type" c.type_name) (
      step _ (u32_back "display_size" c.display_size d)
        (step _ (u32_back "precision" c.precision p) (step _ (u32_back "scale" c.scale s) refl))))

-- Optional u32 fields that are left out when `None`.
pub u32_skipped :
    (k : String) (o : Option ℕ) (fs : Fields)
    → get k fs ≡ none
    → str_eq k k ≡ true
    → FitsU32 o
    → optional de_u32 k (put_some of_u32 k o fs) ≡ ok o
unfolding FitsU32
u32_skipped k o fs g e h = optional-put_some of_u32 de_u32 k o fs g e (λ n q. u32_some k n (h n q))

value_some : (k : String) (v : Value) → v ≢ null → de_option de_value k v ≡ ok (some v)
value_some k null ne = absurd (ne refl)
value_some k (bool b) ne = refl
value_some k (number n) ne = refl
value_some k (string s) ne = refl
value_some k (array vs) ne = refl
value_some k (object fs) ne = refl

-- A value that is written by itself reads back unless it is `null`.
pub value_skipped :
    (k : String) (o : Option Value) (fs : Fields)
    → get k fs ≡ none
    → str_eq k k ≡ true
    → o ≢ some null
    → optional de_value k (put_some verbatim k o fs) ≡ ok o
value_skipped k o fs g e ne =
    optional-put_some verbatim de_value k o fs g e (λ v q. value_some k v (λ n. ne (q ∙ ap some n)))

unfoldable pub FitsDetail : ParameterDetail → Type 0
FitsDetail p = (ltb p.precision 4294967296 ≡ true) × FitsU32 p.scale

pub detail_back :
    (k : String) (p : ParameterDetail)
    → FitsDetail p
    → de_parameter_detail k (encode_parameter_detail p) ≡ ok p
unfolding de_parameter_detail FitsDetail get
detail_back k p (n, s) = step _ (u32_plain "precision" p.precision n) (
    step _ (u32_skipped "scale" p.scale _ refl refl s)
      (step _ (default-other of_u32 de_string "" "scale" "name" p.scale _ refl) refl))

unfoldable pub FitsParameter : ParameterResult → Type 0
FitsParameter p =
    (ltb p.index 4294967296 ≡ true)
    × (ltb p.precision 4294967296 ≡ true)
    × FitsU32 p.scale
    × FitsU32 p.ccsid
    × (p.value ≢ some null)

pub parameter_back :
    (k : String) (p : ParameterResult)
    → FitsParameter p
    → de_parameter_result k (encode_parameter_result p) ≡ ok p
unfolding de_parameter_result FitsParameter get
parameter_back k p (i, n, s, c, v) = step _ (u32_plain "index" p.index i) (
    step _ (u32_plain "precision" p.precision n) (
      step _
        (u32_skipped "scale" p.scale _
          (get-put_some of_u32 "ccsid" "scale" p.ccsid _ refl
            ∙ get-put_some verbatim "value" "scale" p.value _ refl)
          refl s)
        (step _ (default-other of_u32 de_string "" "scale" "name" p.scale _ refl) (
          step _
            (optional-other of_u32 de_u32 "scale" "ccsid" p.scale _ refl
              ∙ u32_skipped "ccsid" p.ccsid _ (get-put_some verbatim "value" "ccsid" p.value _ refl)
                  refl c)
            (step _
              (optional-other of_u32 de_value "scale" "value" p.scale _ refl
                ∙ optional-other of_u32 de_value "ccsid" "value" p.ccsid _ refl
                ∙ value_skipped "value" p.value _ refl refl v)
              refl)))))

pub message_back : (k : String) (m : ClMessage) → de_cl_message k (encode_cl_message m) ≡ ok m
unfolding de_cl_message get
message_back k m =
    step _ (text_back "id" m.id)
      (step _ (text_back "type" m.kind) (step _ (text_back "text" m.text) refl))

-- Vectors.
pub de_vec-of_vec :
    {A : Type 0} (encode : A → Value) (d : Decoder A) (k : String) (as' : List A)
    → All (λ a. d k (encode a) ≡ ok a) as'
    → de_vec d k (of_vec encode as') ≡ ok as'
de_vec-of_vec encode d k [] h = refl
de_vec-of_vec encode d k (a ∷ as') h = step _ h.0 (step _ (de_vec-of_vec encode d k as' h.1) refl)
