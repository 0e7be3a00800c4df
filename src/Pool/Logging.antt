-- ===== src/Pool/Logging.antt =====
-- src/pool/runtime.rs: what `execute_with` and `execute_with_opts` record of their parameters in a
-- span, under the policy of the pool.
use mapepire_rs.Prelude.{ℕ, suc, ◌≡◌, ◌≢◌, refl, ap, String, List, [], ◌∷◌, map, length}
use mapepire_rs.Protocol.Json.{Value, null, bool, number, string, array, object}
use mapepire_rs.Pool.Builder.{ParameterLogging, none, types_and_count, full}

abbrev pub type_name : Value → String
type_name (string s) = "String"
type_name (number n) = "Number"
type_name (bool b) = "Bool"
type_name null = "Null"
type_name (array vs) = "Array"
type_name (object fs) = "Object"

-- The fields of the span that the parameters are in.
pub record SpanFields : Type 0 where
  pub param_count : ℕ
  pub param_types : List (List String)
  pub params : List (List Value)

-- A field that is not recorded is the empty list, a recorded one holds its value.
unfoldable pub record_params : ParameterLogging → List Value → SpanFields
record_params none params = record { param_count = length params; param_types = []; params = [] }
record_params types_and_count params = record {
  param_count = length params;
  param_types = map type_name params ∷ [];
  params = [];
}
record_params full params = record {
  param_count = length params;
  param_types = [];
  params = params ∷ [];
}

list_tail : {a b : String} {as' bs : List String} → (a ∷ as') ≡ (b ∷ bs) → as' ≡ bs
list_tail h = cc

length-type_names : (a b : List Value) → map type_name a ≡ map type_name b → length a ≡ length b
length-type_names [] [] h = refl
length-type_names [] (w ∷ b) h = cc
length-type_names (v ∷ a) [] h = cc
length-type_names (v ∷ a) (w ∷ b) h = ap suc (length-type_names a b (list_tail h))

-- Unless the policy is `Full`, a span tells nothing of the parameters but how many there are and
-- which types they have: parameters of the same types leave the same span.
pub logs_types_at_most :
    (policy : ParameterLogging) (a b : List Value)
    → policy ≢ full
    → map type_name a ≡ map type_name b
    → record_params policy a ≡ record_params policy b
unfolding record_params
logs_types_at_most none a b ne h = rw (length-type_names a b h)
logs_types_at_most types_and_count a b ne h = rw (length-type_names a b h, h)
logs_types_at_most full a b ne h = absurd (ne refl)
