-- ===== src/Protocol/Json.antt =====
-- `serde_json::Value` and `serde_json::Map`, as far as src/protocol/decode.rs, response.rs and
-- request.rs use them.
use mapepire_rs.Prelude.{
  ℕ, String, Bool, true, false, Option, none, some, List, [], ◌∷◌, ◌≡◌, refl, ap, arith,
  if◌then◌else◌, bind_opt,
}
use mapepire_rs.Prelude.Text.{str_eq}
use text.Mathlib.TextEquality.{eq_iff}

-- serde_json's three kinds of number: `neg_int n` is -(n + 1), `float` holds the 64 bits of an f64.
pub data Number : Type 0 where
  pos_int neg_int float : ℕ → Number

mutual
  pub data Value : Type 0 where
    null : Value
    bool : Bool → Value
    number : Number → Value
    string : String → Value
    array : Items → Value
    object : Fields → Value

  pub data Items : Type 0 where
    nil : Items
    cons : Value → Items → Items

  pub data Fields : Type 0 where
    end : Fields
    field : String → Value → Fields → Fields

abbrev pub to_list : Items → List Value
to_list nil = []
to_list (cons v vs) = v ∷ to_list vs

abbrev pub of_list : List Value → Items
of_list [] = nil
of_list (v ∷ vs) = cons v (of_list vs)

pub to_list-of_list : (vs : List Value) → to_list (of_list vs) ≡ vs
to_list-of_list [] = refl
to_list-of_list (v ∷ vs) = ap (◌∷◌ v) (to_list-of_list vs)

pub of_list-to_list : (vs : Items) → of_list (to_list vs) ≡ vs
of_list-to_list nil = refl
of_list-to_list (cons v vs) = ap (cons v) (of_list-to_list vs)

-- `Map::get`.
unfoldable pub get : String → Fields → Option Value
get k end = none
get k (field j v fs) = if str_eq j k then some v else get k fs

-- `Map::contains_key`.
unfoldable pub contains_key : String → Fields → Bool
contains_key k end = false
contains_key k (field j v fs) = if str_eq j k then true else contains_key k fs

-- `Map::insert`: the value of a key that is there is replaced.
unfoldable pub insert : String → Value → Fields → Fields
insert k v end = field k v end
insert k v (field j w fs) = if str_eq j k then field j v fs else field j w (insert k v fs)

-- `Map::remove`; a map holds a key once.
unfoldable pub remove : String → Fields → Fields
remove k end = end
remove k (field j v fs) = if str_eq j k then fs else field j v (remove k fs)

abbrev pub as_str : Value → Option String
as_str (string s) = some s
as_str _ = none

abbrev pub as_bool : Value → Option Bool
as_bool (bool b) = some b
as_bool _ = none

abbrev pub is_array : Value → Bool
is_array (array vs) = true
is_array _ = false

-- `obj.get(k).and_then(Value::as_str)`.
unfoldable pub get_str : String → Fields → Option String
get_str k fs = bind_opt (get k fs) as_str

unfoldable pub get_bool : String → Fields → Option Bool
get_bool k fs = bind_opt (get k fs) as_bool

pub get-insert :
    (k j : String) (v : Value) (fs : Fields)
    → get j (insert k v fs) ≡ (if str_eq k j then some v else get j fs)
unfolding get insert
get-insert k j v end = refl
get-insert k j v (field i w fs) =
    ground (arith, eq_iff k j, eq_iff i k, eq_iff i j, get-insert k j v fs)

pub contains_key-eq-false : (k : String) (fs : Fields) → contains_key k fs ≡ false → get k fs ≡ none
unfolding get contains_key
contains_key-eq-false k end h = refl
contains_key-eq-false k (field j v fs) h = ground (arith, contains_key-eq-false k fs)
