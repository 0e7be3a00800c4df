-- ===== src/Error.antt =====
-- src/error.rs and src/job_helpers.rs: the crate's errors and the maps from responses to them.
use mapepire_rs.Prelude.{ℕ, String, Bool, false, Option, none, some, List, [], ◌||◌, unwrap_or}
use mapepire_rs.Prelude.Text.{str_eq}
use mapepire_rs.Protocol.Response.{ℤ, Response, ErrorResponse}
use Prim.Native.String.{◌++◌}
use text.Mathlib.Text.{starts_with}

pub data TransportError : Type 0 where
  io : String → TransportError
  closed : TransportError

-- `json` holds the message of the `serde_json::Error`.
pub data ProtocolError : Type 0 where
  json : String → ProtocolError
  correlation_mismatch : (expected got : String) → ProtocolError
  unknown_response_type : String → ProtocolError
  zero_page_size terse_rows_without_columns empty_parameter_sets : ProtocolError

pub data DecodeError : Type 0 where
  serde missing_column : String → DecodeError

pub record DiagnosticItem : Type 0 where
  pub message_id : Option String
  pub text : String

pub record ServerError : Type 0 where
  pub message : String
  pub sqlstate : Option String
  pub sqlcode : Option ℤ
  pub job_name : Option String
  pub diagnostics : List DiagnosticItem

-- A `Duration` is a number of nanoseconds.
pub data Error : Type 0 where
  transport : TransportError → Error
  server : ServerError → Error
  auth : String → Error
  protocol : ProtocolError → Error
  decode : (column : Option String) (source : DecodeError) → Error
  pool_exhausted : (timeout : ℕ) → Error
  cancelled : Error
  internal : String → Error

unfoldable pub is_transient : ServerError → Bool
is_transient e = elim e.sqlstate [
  | none ↦ false
  | some s ↦ starts_with s "08" || (str_eq s "40001" || str_eq s "57033")
]

unfoldable pub is_constraint_violation : ServerError → Bool
is_constraint_violation e = elim e.sqlstate [ none ↦ false | some s ↦ starts_with s "23" ]

unfoldable pub is_authorization : ServerError → Bool
is_authorization e = elim e.sqlstate [
  | none ↦ false
  | some s ↦ starts_with s "28" || str_eq s "42501"
]

unfoldable pub is_object_not_found : ServerError → Bool
is_object_not_found e = elim e.sqlstate [
  | none ↦ false
  | some s ↦ str_eq s "42704" || str_eq s "42S02"
]

unfoldable pub is_data_type_mismatch : ServerError → Bool
is_data_type_mismatch e = elim e.sqlstate [ none ↦ false | some s ↦ starts_with s "22" ]

unfoldable pub server_error : ErrorResponse → Error
server_error e = server (record {
  message = unwrap_or e.error "daemon returned error response with no message";
  sqlstate = e.sqlstate;
  sqlcode = e.sqlcode;
  job_name = e.job;
  diagnostics = [];
})

unfoldable pub server_failed : String → Error
server_failed method = server (record {
  message = "daemon returned success=false for " ++ method;
  sqlstate = none;
  sqlcode = none;
  job_name = none;
  diagnostics = [];
})

-- `debug` is the text that the derived `Debug` gives a response.
unfoldable pub unexpected : (Response → String) → Response → Error
unexpected debug r = protocol (unknown_response_type ("unexpected variant: " ++ debug r))
