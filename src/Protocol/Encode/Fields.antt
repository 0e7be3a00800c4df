-- ===== src/Protocol/Encode/Fields.antt =====
-- What serde derives for one field of a wire struct: a plain field, and a field that is left out
-- when it is `None`.
use mapepire_rs.Prelude.{ℕ, String, Option, none, some, List, [], ◌∷◌, if◌then◌else◌}
use mapepire_rs.Prelude.Text.{is_empty}
use mapepire_rs.Protocol.Json.{
  Value, null, number, string, array, pos_int, neg_int, Items, nil, cons, Fields, field, of_list,
}
use mapepire_rs.Protocol.Response.{ℤ, pos, negsuc}

abbrev pub put_string : String → String → Fields → Fields
put_string k s fs = field k (string s) fs

-- `#[serde(skip_serializing_if = "Option::is_none")]`.
unfoldable pub put_some : {A : Type 0} → (A → Value) → String → Option A → Fields → Fields
put_some encode k none fs = fs
put_some encode k (some a) fs = field k (encode a) fs

-- `#[serde(skip_serializing_if = "String::is_empty")]`.
unfoldable pub put_text : String → String → Fields → Fields
put_text k s fs = if is_empty s then fs else field k (string s) fs

abbrev pub of_u32 : ℕ → Value
of_u32 n = number (pos_int n)

abbrev pub of_values : List Value → Value
of_values vs = array (of_list vs)

-- A field that is written as `null` when it is `None`.
abbrev pub of_option : {A : Type 0} → (A → Value) → Option A → Value
of_option encode none = null
of_option encode (some a) = encode a

abbrev items_of : {A : Type 0} → (A → Value) → List A → Items
items_of encode [] = nil
items_of encode (a ∷ as') = cons (encode a) (items_of encode as')

abbrev pub of_vec : {A : Type 0} → (A → Value) → List A → Value
of_vec encode as' = array (items_of encode as')

-- `#[serde(skip_serializing_if = "Vec::is_empty")]`.
unfoldable pub put_vec : {A : Type 0} → (A → Value) → String → List A → Fields → Fields
put_vec encode k [] fs = fs
put_vec encode k (a ∷ as') fs = field k (of_vec encode (a ∷ as')) fs

-- i32 and i64.
abbrev pub of_int : ℤ → Value
of_int (pos n) = number (pos_int n)
of_int (negsuc n) = number (neg_int n)
