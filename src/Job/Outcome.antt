-- ===== src/Job/Outcome.antt =====
-- src/job.rs: `ClOutcome`, the result of a CL command, with the job log entries of
-- src/protocol/response.rs.
use Prim.Native.String.{◌++◌}
use mapepire_rs.Prelude.{
  ◌+◌, String, Bool, Option, none, some, List, [], ◌∷◌, map, if◌then◌else◌, Result, ok, err, ◌>>=◌,
}
use mapepire_rs.Prelude.Text.{str_eq, show_ℕ}
use mapepire_rs.Protocol.Json.{Number, pos_int, neg_int, float, null, number, string, Fields}
use mapepire_rs.Protocol.Serde.{Decoded, Decoder, custom, de_string, default, optional}
use mapepire_rs.Protocol.Response.{ℤ, ClMessage, QueryResult, Response, query_result, cl_result}
use mapepire_rs.Protocol.Rendering.{Rendering}
use mapepire_rs.Error.{Error, server_error, unexpected}

pub record JobLogEntry : Type 0 where
  pub message_id : Option String
  pub severity : Option String
  pub message_timestamp : Option String
  pub from_library : Option String
  pub from_program : Option String
  pub message_type : Option String
  pub message_text : Option String
  pub message_second_level_text : Option String

-- `JobLogEntry::default()`.
abbrev pub no_entry : JobLogEntry
no_entry = record {
  message_id = none;
  severity = none;
  message_timestamp = none;
  from_library = none;
  from_program = none;
  message_type = none;
  message_text = none;
  message_second_level_text = none;
}

abbrev number_text : Rendering → Number → String
number_text r (pos_int n) = show_ℕ n
number_text r (neg_int n) = "-" ++ show_ℕ (n + 1)
number_text r (float b) = r.value_text (number (float b))

-- `deserialize_optional_string_or_number`.
unfoldable pub de_severity : Rendering → Decoder (Option String)
de_severity r k null = ok none
de_severity r k (string s) = ok (some s)
de_severity r k (number n) = ok (some (number_text r n))
de_severity r k other =
    err (custom ("SEVERITY must be a string or number, got " ++ r.value_text other))

unfoldable pub de_job_log_entry : Rendering → Fields → Decoded JobLogEntry
unfolding de_severity
de_job_log_entry r fs = do
  message_id ← optional de_string "MESSAGE_ID" fs
  severity ← default none (de_severity r) "SEVERITY" fs
  message_timestamp ← optional de_string "MESSAGE_TIMESTAMP" fs
  from_library ← optional de_string "FROM_LIBRARY" fs
  from_program ← optional de_string "FROM_PROGRAM" fs
  message_type ← optional de_string "MESSAGE_TYPE" fs
  message_text ← optional de_string "MESSAGE_TEXT" fs
  message_second_level_text ← optional de_string "MESSAGE_SECOND_LEVEL_TEXT" fs
  ok (record {
    message_id = message_id;
    severity = severity;
    message_timestamp = message_timestamp;
    from_library = from_library;
    from_program = from_program;
    message_type = message_type;
    message_text = message_text;
    message_second_level_text = message_second_level_text;
  })

pub record ClOutcome : Type 0 where
  pub success : Bool
  pub error : Option String
  pub sqlcode : Option ℤ
  pub sqlstate : Option String
  pub entries : List JobLogEntry

-- `unwrap_or_default`.
abbrev entry_or_default : Decoded JobLogEntry → JobLogEntry
entry_or_default (ok e) = e
entry_or_default (err x) = no_entry

unfoldable pub from_query_result : Rendering → QueryResult → ClOutcome
unfolding de_job_log_entry
from_query_result r q = record {
  success = q.success;
  error = q.error;
  sqlcode = q.sqlcode;
  sqlstate = q.sqlstate;
  entries = map (λ row. entry_or_default (de_job_log_entry r row)) q.rows;
}

abbrev first_text : List ClMessage → Option String
first_text [] = none
first_text (m ∷ ms) = let rest = first_text ms in elim m.text [ some t ↦ some t | none ↦ rest ]

abbrev entry_of : ClMessage → JobLogEntry
entry_of m = record no_entry { message_id = m.id; message_type = m.kind; message_text = m.text }

unfoldable pub from_cl_result : Bool → List ClMessage → ClOutcome
from_cl_result success messages = record {
  success = success;
  error = if success then none else first_text messages;
  sqlcode = none;
  sqlstate = none;
  entries = map entry_of messages;
}

unfoldable pub cl_outcome_from_response : Rendering → String → Response → Result ClOutcome Error
unfolding from_query_result from_cl_result
cl_outcome_from_response r id (query_result q) =
    if str_eq q.id id
    then ok (from_query_result r q)
    else err (unexpected r.response_text (query_result q))
cl_outcome_from_response r id (cl_result got success messages) =
    if str_eq got id
    then ok (from_cl_result success messages)
    else err (unexpected r.response_text (cl_result got success messages))
cl_outcome_from_response r id (Response.error e) = err (server_error e)
cl_outcome_from_response r id other = err (unexpected r.response_text other)
