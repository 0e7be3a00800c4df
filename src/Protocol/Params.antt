-- ===== src/Protocol/Params.antt =====
-- src/protocol/request.rs, `parameter_sets`: how `prepare_sql_execute` writes its parameter sets
-- and reads them back. One set is written as a flat array.
use mapepire_rs.Prelude.{
  map, suc, ◌≡◌, ◌≢◌, refl, sym, length, ap, ap₂, ◌∙◌, String, Bool, true, false, ◌&&◌, Option,
  none, some, List, [], ◌∷◌, if◌then◌else◌, Result, ok, err,
}
use mapepire_rs.Protocol.Json.{
  Value, null, array, object, Items, nil, cons, to_list, of_list, is_array, to_list-of_list,
}

abbrev pub Sets : Type 0
Sets = List (List Value)

abbrev of_sets : Sets → Items
of_sets [] = nil
of_sets (s ∷ ss) = cons (array (of_list s)) (of_sets ss)

unfoldable pub serialize : Option Sets → Value
serialize none = null
serialize (some (s ∷ [])) = array (of_list s)
serialize (some sets) = array (of_sets sets)

abbrev all_arrays : Items → Bool
all_arrays nil = true
all_arrays (cons v vs) = is_array v && all_arrays vs

-- `filter_map` over the inner arrays.
abbrev inner_arrays : Items → Sets
inner_arrays nil = []
inner_arrays (cons (array s) vs) = to_list s ∷ inner_arrays vs
inner_arrays (cons v vs) = inner_arrays vs

unfoldable pub deserialize : Value → Result (Option Sets) String
deserialize null = ok none
deserialize (array items) =
    if all_arrays items then ok (some (inner_arrays items)) else ok (some (to_list items ∷ []))
deserialize _ = err "parameters must be a JSON array"

-- A single set all of whose values are arrays; the empty set is one.
abbrev pub is_ambiguous : Option Sets → Bool
is_ambiguous (some (s ∷ [])) = all_arrays (of_list s)
is_ambiguous _ = false

all_arrays-of_sets : (ss : Sets) → all_arrays (of_sets ss) ≡ true
all_arrays-of_sets [] = refl
all_arrays-of_sets (s ∷ ss) = all_arrays-of_sets ss

inner_arrays-of_sets : (ss : Sets) → inner_arrays (of_sets ss) ≡ ss
inner_arrays-of_sets [] = refl
inner_arrays-of_sets (s ∷ ss) = ap₂ ◌∷◌ (to_list-of_list s) (inner_arrays-of_sets ss)

-- What is written reads back as it was, for every list of sets but a single set of arrays.
pub deserialize-serialize :
    (sets : Option Sets) → is_ambiguous sets ≡ false → deserialize (serialize sets) ≡ ok sets
unfolding deserialize serialize
deserialize-serialize none h = refl
deserialize-serialize (some []) h = refl
deserialize-serialize (some (s ∷ [])) h = rw (h) (ap (λ t. ok (some (t ∷ []))) (to_list-of_list s))
deserialize-serialize (some (s ∷ s' ∷ ss)) h =
    rw (all_arrays-of_sets ss, to_list-of_list s, to_list-of_list s', inner_arrays-of_sets ss)

-- The values of an array.
abbrev pub elements : Value → List Value
elements (array vs) = to_list vs
elements _ = []

inner_arrays-elements :
    (s : List Value) → all_arrays (of_list s) ≡ true → inner_arrays (of_list s) ≡ map elements s
inner_arrays-elements [] h = refl
inner_arrays-elements (array x ∷ s) h = ap (◌∷◌ (to_list x)) (inner_arrays-elements s h)
inner_arrays-elements (null ∷ s) h = cc
inner_arrays-elements (Value.bool b ∷ s) h = cc
inner_arrays-elements (Value.number n ∷ s) h = cc
inner_arrays-elements (Value.string t ∷ s) h = cc
inner_arrays-elements (object fs ∷ s) h = cc

length-elements : (s : List Value) → length (map elements s) ≡ length s
length-elements [] = refl
length-elements (v ∷ s) = ap suc (length-elements s)

abbrev sets_of : Result (Option Sets) String → Sets
sets_of (ok (some sets)) = sets
sets_of _ = []

-- A single set of no value, or of two values or more, that are all arrays does not read back: what
-- is read has a set for each of its values, in order, with the elements of that value.
pub ambiguous_set_splits :
    (s : List Value)
    → is_ambiguous (some (s ∷ [])) ≡ true
    → length s ≢ 1
    → (deserialize (serialize (some (s ∷ []))) ≡ ok (some (map elements s)))
      × (deserialize (serialize (some (s ∷ []))) ≢ ok (some (s ∷ [])))
unfolding deserialize serialize
ambiguous_set_splits s h ne =
    let split = inner_arrays-elements s h in
    rw (h) (
      ap (λ t. ok (some t)) split,
      λ e. ne (sym (length-elements s) ∙ ap length (sym split) ∙ ap (λ t. length (sets_of t)) e),
    )
