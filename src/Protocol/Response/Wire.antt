-- ===== src/Protocol/Response/Wire.antt =====
-- src/protocol/response.rs: the types of a response. An f64 is kept as the JSON number it came as.
use mapepire_rs.Prelude.{ℕ, String, Bool, Option, none, some, List, if◌then◌else◌}
use mapepire_rs.Prelude.Text.{is_empty}
use mapepire_rs.Protocol.Json.{Number, Value, Fields}

-- i32 and i64: `negsuc n` is -(n + 1).
pub data ℤ : Type 0 where
  pos negsuc : ℕ → ℤ

pub record Column : Type 0 where
  pub name : String
  pub label : Option String
  pub type_name : Option String
  pub display_size : Option ℕ
  pub precision : Option ℕ
  pub scale : Option ℕ

pub record ParameterDetail : Type 0 where
  pub type_name : String
  pub mode : String
  pub precision : ℕ
  pub scale : Option ℕ
  pub name : String

pub record ParameterResult : Type 0 where
  pub index : ℕ
  pub type_name : String
  pub precision : ℕ
  pub scale : Option ℕ
  pub name : String
  pub ccsid : Option ℕ
  pub value : Option Value

pub record QueryMetaData : Type 0 where
  pub column_count : ℕ
  pub columns : List Column
  pub job : Option String
  pub parameters : List ParameterDetail

pub record QueryResult : Type 0 where
  pub id : String
  pub success : Bool
  pub has_results : Bool
  pub update_count : ℤ
  pub cont_id : Option String
  pub is_done : Bool
  pub metadata : QueryMetaData
  pub rows : List Fields  -- the field `data`
  pub execution_time : Number
  pub error : Option String
  pub sqlcode : Option ℤ
  pub sqlstate : Option String
  pub parameter_count : Option ℕ
  pub output_parms : List ParameterResult

pub record ClMessage : Type 0 where
  pub id : Option String
  pub kind : Option String
  pub text : Option String

pub record ErrorResponse : Type 0 where
  pub id : String
  pub success : Bool
  pub sqlstate : Option String
  pub sqlcode : Option ℤ
  pub error : Option String
  pub job : Option String

pub data Response : Type 0 where
  connected : (id version job : String) → Response
  pong : (id : String) → Response
  exited : (id : String) → Response
  query_result : QueryResult → Response
  prepared_statement :
      (id : String) (success : Bool) (cont_id : String) (execution_time : Number) → Response
  sql_closed : (id : String) (success : Bool) → Response
  cl_result : (id : String) (success : Bool) (messages : List ClMessage) → Response
  version : (id : String) (success : Bool) (text : String) → Response
  db_job : (id : String) (success : Bool) (job : String) → Response
  config_set : (id : String) (success : Bool) → Response
  trace_data : (id : String) (success : Bool) (tracedata : String) → Response
  dove_result :
      (id : String) (success : Bool) (vedata : Value) (vemetadata : Option Value) → Response
  error : ErrorResponse → Response

-- `filter(|c| !c.is_empty())`.
abbrev pub non_empty : Option String → Option String
non_empty none = none
non_empty (some s) = if is_empty s then none else some s

-- The cursor of a result is the id of the request that opened it.
unfoldable pub cursor_handle : QueryResult → Option String
cursor_handle q = if is_empty q.id then non_empty q.cont_id else some q.id
