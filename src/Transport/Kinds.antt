-- ===== src/Transport/Kinds.antt =====
-- src/transport/dispatcher.rs: the ids and kinds of messages, and the remap of untagged acks.
use mapepire_rs.Prelude.{String, true}
use mapepire_rs.Protocol.Json.{float}
use mapepire_rs.Protocol.Request.{Request}
use mapepire_rs.Protocol.Response.{
  Response, connected, pong, exited, query_result, prepared_statement, sql_closed, cl_result,
  version, db_job, config_set, trace_data, dove_result, error,
}

pub data PendingKind : Type 0 where
  connect ping get_db_job get_version prepare_sql set_config sql_close exit get_trace_data other :
      PendingKind

unfoldable pub request_id : Request → String
request_id (Request.connect id _ _ _) = id
request_id (Request.sql id _ _ _ _) = id
request_id (Request.prepare_sql id _ _) = id
request_id (Request.prepare_sql_execute id _ _ _ _) = id
request_id (Request.execute id _ _ _ _) = id
request_id (Request.sql_more id _ _) = id
request_id (Request.sql_close id _) = id
request_id (Request.cl id _ _) = id
request_id (Request.get_version id) = id
request_id (Request.get_db_job id) = id
request_id (Request.set_config id _ _) = id
request_id (Request.get_trace_data id) = id
request_id (Request.dove id _ _ _ _) = id
request_id (Request.ping id) = id
request_id (Request.exit id) = id

unfoldable pub pending_kind : Request → PendingKind
pending_kind (Request.connect _ _ _ _) = connect
pending_kind (Request.ping _) = ping
pending_kind (Request.get_db_job _) = get_db_job
pending_kind (Request.get_version _) = get_version
pending_kind (Request.prepare_sql _ _ _) = prepare_sql
pending_kind (Request.set_config _ _ _) = set_config
pending_kind (Request.sql_close _ _) = sql_close
pending_kind (Request.exit _) = exit
pending_kind (Request.get_trace_data _) = get_trace_data
pending_kind (Request.sql _ _ _ _ _) = other
pending_kind (Request.prepare_sql_execute _ _ _ _ _) = other
pending_kind (Request.execute _ _ _ _ _) = other
pending_kind (Request.sql_more _ _ _) = other
pending_kind (Request.cl _ _ _) = other
pending_kind (Request.dove _ _ _ _ _) = other

unfoldable pub remap_response : PendingKind → Response → Response
remap_response get_db_job (connected id v job) = db_job id true job
remap_response set_config (pong id) = config_set id true
remap_response sql_close (pong id) = sql_closed id true
remap_response exit (pong id) = exited id
remap_response prepare_sql (pong id) = prepared_statement id true "" (float 0)
remap_response get_trace_data (pong id) = trace_data id true ""
remap_response _ r = r

unfoldable pub response_id : Response → String
response_id (connected id _ _) = id
response_id (pong id) = id
response_id (exited id) = id
response_id (query_result q) = q.id
response_id (prepared_statement id _ _ _) = id
response_id (sql_closed id _) = id
response_id (cl_result id _ _) = id
response_id (version id _ _) = id
response_id (db_job id _ _) = id
response_id (config_set id _) = id
response_id (trace_data id _ _) = id
response_id (dove_result id _ _ _) = id
response_id (error e) = e.id
