-- ===== src/Protocol/RoundTrip/RequestFields.antt =====
-- src/protocol/request.rs: the optional fields of requests read back as they were written.
use mapepire_rs.Prelude.{
  ℕ, String, Bool, Option, none, some, List, ◌≡◌, refl, true, false, ok, ltb, ap, ◌>>=◌,
}
use mapepire_rs.Protocol.Json.{Value, bool, Fields, get, end}
use mapepire_rs.Prelude.Text.{str_eq}
use mapepire_rs.Protocol.Serde.{de_bool, de_u32, de_value, de_vec, de_option, optional}
use mapepire_rs.Protocol.Params.{is_ambiguous}
use mapepire_rs.Protocol.Request.{Request, sql, prepare_sql_execute, execute, sql_more, dove}
use mapepire_rs.Protocol.Encode.Fields.{put_some, of_u32, of_values}
use mapepire_rs.Protocol.RoundTrip.Fields.{get-put_some, optional-put_some, de_vec-of_values}

-- A page size is a u32.
unfoldable pub FitsU32 : Option ℕ → Type 0
FitsU32 rows = (n : ℕ) → rows ≡ some n → ltb n 4294967296 ≡ true

-- The fields of a request fit their types, and its parameter sets are not ambiguous.
unfoldable pub IsWritable : Request → Type 0
IsWritable (sql id text rows parameters terse) = FitsU32 rows
IsWritable (prepare_sql_execute id text parameters rows terse) =
    (is_ambiguous parameters ≡ false) × FitsU32 rows
IsWritable (execute id cont_id parameters rows terse) = FitsU32 rows
IsWritable (sql_more id cont_id rows) = ltb rows 4294967296 ≡ true
IsWritable (dove id text run rows terse) = FitsU32 rows
IsWritable _ = Unit

de_rows : (n : ℕ) → ltb n 4294967296 ≡ true → de_option de_u32 "rows" (of_u32 n) ≡ ok (some n)
de_rows n h = rw (h) refl

pub rows_back :
    (rows : Option ℕ) (fs : Fields)
    → get "rows" fs ≡ none
    → FitsU32 rows
    → optional de_u32 "rows" (put_some of_u32 "rows" rows fs) ≡ ok rows
unfolding FitsU32
rows_back rows fs g h =
    optional-put_some of_u32 de_u32 "rows" rows fs g refl (λ n e. de_rows n (h n e))

pub bool_back :
    (k : String) (b : Option Bool) (fs : Fields)
    → get k fs ≡ none
    → str_eq k k ≡ true
    → optional de_bool k (put_some bool k b fs) ≡ ok b
bool_back k b fs g e = optional-put_some bool de_bool k b fs g e (λ a h. refl)

pub values_back :
    (vs : Option (List Value)) (fs : Fields)
    → get "parameters" fs ≡ none
    → optional (de_vec de_value) "parameters" (put_some of_values "parameters" vs fs) ≡ ok vs
values_back vs fs g =
    optional-put_some of_values (de_vec de_value) "parameters" vs fs g refl
      (λ a h. ap (λ r. r >>= λ w. ok (some w)) (de_vec-of_values "parameters" a))

-- A key that is in none of the fields is not found.
pub absent :
    {A : Type 0} (encode : A → Value) (j k : String) (o : Option A)
    → str_eq j k ≡ false
    → get k (put_some encode j o end) ≡ none
unfolding get
absent encode j k o h = get-put_some encode j k o end h

pub terse_back :
    (terse : Option Bool) → optional de_bool "terse" (put_some bool "terse" terse end) ≡ ok terse
unfolding get
terse_back terse = bool_back "terse" terse end refl refl
