-- ===== src/Job.antt =====
-- src/job.rs: the calls of a `Job`, one connection to a daemon.
pub mod Trace
pub mod Outcome
pub mod Execute
pub mod Prepared
pub mod Batch
pub mod Acks
pub mod Ping
use mapepire_rs.Prelude.{
  ℕ, String, Bool, true, false, Option, none, some, List, [], ◌∷◌, if◌then◌else◌, Result, ok, err,
}
use mapepire_rs.Prelude.Text.{str_eq, is_empty}
use mapepire_rs.Protocol.Json.{Value}
use mapepire_rs.Protocol.Request.{Request}
use mapepire_rs.Protocol.Response.{
  Response, pong, prepared_statement, version, db_job, config_set, trace_data, dove_result, error,
}
use mapepire_rs.Protocol.Rendering.{Rendering}
use mapepire_rs.Error.{Error, server_error, server_failed, unexpected}
use mapepire_rs.Client.{Session, Server, Call, ◌>>=◌, lift, next_id, send, send_and_forget}
use mapepire_rs.Query.Options.{
  ExecuteOptions, default_options, resolved_rows, terse_on_wire, owned_parameter_sets,
}
use mapepire_rs.Query.Rows.{Rows, accept_rows}
use mapepire_rs.Query.Statement.{Query}
use Trace.{TraceLevel, TraceDest, in_mem, level_str, dest_str}
use Outcome.{ClOutcome, cl_outcome_from_response}

unfoldable pub execute_request : String → String → Option (List Value) → ℕ → Option Bool → Request
execute_request id sql none page_size terse = Request.sql id sql (some page_size) none terse
execute_request id sql (some params) page_size terse =
    Request.prepare_sql_execute id sql (some (params ∷ [])) (some page_size) terse

-- The flag of an answer that may report failure.
abbrev check_success : {A : Type 0} → String → Bool → A → Result A Error
check_success method true a = ok a
check_success method false a = err (server_failed method)

module _ (r : Rendering) (serve : Server) where
  abbrev refuse : {A : Type 0} → Response → Result A Error
  refuse response = err (unexpected r.response_text response)

  unfoldable pub execute_inner : String → Option (List Value) → ExecuteOptions → Call Rows
  unfolding resolved_rows terse_on_wire send execute_request
  execute_inner sql params opts = do
    page_size ← lift (resolved_rows opts)
    id ← next_id
    response ← send serve (execute_request id sql params page_size (terse_on_wire opts))
    lift (accept_rows r.response_text id page_size response)

  unfoldable pub execute_opts : String → ExecuteOptions → Call Rows
  unfolding execute_inner
  execute_opts sql opts = execute_inner sql none opts

  unfoldable pub execute : String → Call Rows
  unfolding execute_opts
  execute sql = execute_opts sql default_options

  unfoldable pub execute_with_opts : String → List Value → ExecuteOptions → Call Rows
  unfolding execute_inner
  execute_with_opts sql params opts = execute_inner sql (some params) opts

  unfoldable pub execute_with : String → List Value → Call Rows
  unfolding execute_with_opts
  execute_with sql params = execute_with_opts sql params default_options

  unfoldable pub execute_sets : String → List (List Value) → ExecuteOptions → Call Rows
  unfolding owned_parameter_sets resolved_rows terse_on_wire send
  execute_sets sql sets opts = do
    parameters ← lift (owned_parameter_sets sets)
    page_size ← lift (resolved_rows opts)
    id ← next_id
    response ←
        send serve (
          Request.prepare_sql_execute id sql (some parameters) (some page_size)
            (terse_on_wire opts))
    lift (accept_rows r.response_text id page_size response)

  accept_prepared : String → String → Response → Result Query Error
  accept_prepared id sql (prepared_statement got success cont_id time) =
      if str_eq got id
      then ok (record { cont_id = if is_empty cont_id then none else some cont_id; sql = sql })
      else refuse (prepared_statement got success cont_id time)
  accept_prepared id sql (pong got) =
      if str_eq got id then ok (record { cont_id = none; sql = sql }) else refuse (pong got)
  accept_prepared id sql (error e) = err (server_error e)
  accept_prepared id sql other = refuse other

  unfoldable pub prepare : String → Call Query
  unfolding accept_prepared next_id send
  prepare sql = do
    id ← next_id
    response ← send serve (Request.prepare_sql id sql none)
    lift (accept_prepared id sql response)

  accept_pong : String → Response → Result (Unit {0}) Error
  accept_pong id (pong got) = if str_eq got id then ok tt else refuse (pong got)
  accept_pong id other = refuse other

  -- The elapsed time of the answer is left out.
  unfoldable pub ping : Call (Unit {0})
  unfolding accept_pong next_id send
  ping = do id ← next_id; response ← send serve (Request.ping id); lift (accept_pong id response)

  accept_version : String → Response → Result String Error
  accept_version id (version got success text) =
      if str_eq got id
      then check_success "server_version" success text
      else refuse (version got success text)
  accept_version id other = refuse other

  unfoldable pub server_version : Call String
  unfolding accept_version next_id send
  server_version = do
    id ← next_id
    response ← send serve (Request.get_version id)
    lift (accept_version id response)

  accept_db_job : String → Response → Result String Error
  accept_db_job id (db_job got success job) =
      if str_eq got id
      then check_success "db_job_name" success job
      else refuse (db_job got success job)
  accept_db_job id other = refuse other

  unfoldable pub db_job_name : Call String
  unfolding accept_db_job next_id send
  db_job_name = do
    id ← next_id
    response ← send serve (Request.get_db_job id)
    lift (accept_db_job id response)

  accept_config : String → Response → Result (Unit {0}) Error
  accept_config id (config_set got success) =
      if str_eq got id
      then check_success "set_trace" success tt
      else refuse (config_set got success)
  accept_config id other = refuse other

  -- `apply_trace`, the body of `set_trace_config`.
  unfoldable pub set_trace_config : TraceDest → TraceLevel → Call (Unit {0})
  unfolding accept_config next_id send level_str dest_str
  set_trace_config dest level = do
    id ← next_id
    response ← send serve (Request.set_config id (level_str level) (dest_str dest))
    lift (accept_config id response)

  unfoldable pub set_trace : TraceLevel → Call (Unit {0})
  unfolding set_trace_config
  set_trace level = set_trace_config in_mem level

  accept_trace : String → Response → Result String Error
  accept_trace id (trace_data got success tracedata) =
      if str_eq got id
      then check_success "fetch_trace" success tracedata
      else refuse (trace_data got success tracedata)
  accept_trace id other = refuse other

  unfoldable pub fetch_trace : Call String
  unfolding accept_trace next_id send
  fetch_trace = do
    id ← next_id
    response ← send serve (Request.get_trace_data id)
    lift (accept_trace id response)

  accept_dove : String → Response → Result Value Error
  accept_dove id (dove_result got success vedata vemetadata) =
      if str_eq got id
      then check_success "visual_explain" success vedata
      else refuse (dove_result got success vedata vemetadata)
  accept_dove id (error e) = err (server_error e)
  accept_dove id other = refuse other

  unfoldable pub visual_explain : String → Call Value
  unfolding accept_dove next_id send
  visual_explain sql = do
    id ← next_id
    response ← send serve (Request.dove id sql (some true) none none)
    lift (accept_dove id response)

  unfoldable pub cl : String → Call ClOutcome
  unfolding cl_outcome_from_response next_id send
  cl command = do
    id ← next_id
    response ← send serve (Request.cl id command none)
    lift (cl_outcome_from_response r id response)

-- `Drop for Job`.
unfoldable pub drop_job : Session → Session
unfolding next_id send_and_forget
drop_job s =
    let (id, t) = next_id s in elim id [ ok i ↦ send_and_forget (Request.exit i) t | err e ↦ t ]
