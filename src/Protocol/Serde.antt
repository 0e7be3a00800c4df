-- ===== src/Protocol/Serde.antt =====
-- The field decoders that serde derives for the wire structs: required, defaulted and optional
-- fields, aliases, and structs given as arrays of their fields.
use mapepire_rs.Prelude.{
  ℕ, suc, String, Bool, Option, none, some, List, [], ◌∷◌, ltb, if◌then◌else◌, Result, ok, err,
  ◌>>=◌,
}
use mapepire_rs.Protocol.Json.{
  Number, pos_int, neg_int, float, Value, null, bool, number, string, array, object, Items, nil,
  cons, Fields, end, field, get,
}
use mapepire_rs.Protocol.Response.{ℤ, pos, negsuc}

pub data SerdeError : Type 0 where
  missing_field invalid_type invalid_value duplicate_field unknown_variant : String → SerdeError
  invalid_length : ℕ → SerdeError
  custom : String → SerdeError

abbrev pub Decoded : Type 0 → Type 0
Decoded A = Result A SerdeError

-- A decoder of a present value; the text names the field in errors.
abbrev pub Decoder : Type 0 → Type 0
Decoder A = String → Value → Decoded A

abbrev pub de_string : Decoder String
de_string k (string s) = ok s
de_string k _ = err (invalid_type k)

abbrev pub de_bool : Decoder Bool
de_bool k (bool b) = ok b
de_bool k _ = err (invalid_type k)

abbrev pub de_value : Decoder Value
de_value k v = ok v

abbrev pub de_f64 : Decoder Number
de_f64 k (number n) = ok n
de_f64 k _ = err (invalid_type k)

abbrev of_unsigned : ℕ → String → Number → Decoded ℕ
of_unsigned bound k (pos_int n) = if ltb n bound then ok n else err (invalid_value k)
of_unsigned bound k (neg_int n) = err (invalid_value k)
of_unsigned bound k (float b) = err (invalid_type k)

abbrev of_signed : ℕ → String → Number → Decoded ℤ
of_signed half k (pos_int n) = if ltb n half then ok (pos n) else err (invalid_value k)
of_signed half k (neg_int n) = if ltb n half then ok (negsuc n) else err (invalid_value k)
of_signed half k (float b) = err (invalid_type k)

abbrev pub de_u32 : Decoder ℕ
de_u32 k (number n) = of_unsigned 4294967296 k n
de_u32 k _ = err (invalid_type k)

abbrev pub de_i32 : Decoder ℤ
de_i32 k (number n) = of_signed 2147483648 k n
de_i32 k _ = err (invalid_type k)

abbrev pub de_i64 : Decoder ℤ
de_i64 k (number n) = of_signed 9223372036854775808 k n
de_i64 k _ = err (invalid_type k)

-- `Option<T>`: JSON null is `None`.
abbrev pub de_option : {A : Type 0} → Decoder A → Decoder (Option A)
de_option d k null = ok none
de_option d k v = d k v >>= λ a. ok (some a)

abbrev de_items : {A : Type 0} → Decoder A → String → Items → Decoded (List A)
de_items d k nil = ok []
de_items d k (cons v vs) = do a ← d k v; as' ← de_items d k vs; ok (a ∷ as')

-- `Vec<T>`.
abbrev pub de_vec : {A : Type 0} → Decoder A → Decoder (List A)
de_vec d k (array vs) = de_items d k vs
de_vec d k _ = err (invalid_type k)

-- A field with no default.
abbrev pub required : {A : Type 0} → Decoder A → String → Fields → Decoded A
required d k fs = elim (get k fs) [ none ↦ err (missing_field k) | some v ↦ d k v ]

-- `#[serde(default)]`.
abbrev pub default : {A : Type 0} → A → Decoder A → String → Fields → Decoded A
default a d k fs = elim (get k fs) [ none ↦ ok a | some v ↦ d k v ]

abbrev pub optional : {A : Type 0} → Decoder A → String → Fields → Decoded (Option A)
optional d k fs = default none (de_option d) k fs

-- `#[serde(default, alias = …)]`: a map that has both names repeats the field.
abbrev pub aliased : {A : Type 0} → Decoder A → String → String → Fields → Decoded (Option A)
aliased d k alias fs = elim (get k fs) [
  | none ↦ optional d alias fs
  | some v ↦ elim (get alias fs) [ none ↦ de_option d k v | some w ↦ err (duplicate_field k) ]
]

abbrev zip_fields : List String → Items → ℕ → Decoded Fields
zip_fields [] nil n = ok end
zip_fields [] (cons v vs) n = err (invalid_length n)
zip_fields (k ∷ ks) nil n = ok end
zip_fields (k ∷ ks) (cons v vs) n = zip_fields ks vs n >>= λ fs. ok (field k v fs)

abbrev count_items : Items → ℕ
count_items nil = 0
count_items (cons v vs) = suc (count_items vs)

-- A derived struct reads an object by names, and an array by positions.
abbrev pub struct_fields : List String → String → Value → Decoded Fields
struct_fields names k (object fs) = ok fs
struct_fields names k (array vs) = zip_fields names vs (count_items vs)
struct_fields names k _ = err (invalid_type k)
