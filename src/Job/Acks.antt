-- ===== src/Job/Acks.antt =====
-- src/job.rs with src/transport/dispatcher.rs: the calls and the plain acknowledgements of a live
-- daemon, which name no kind of answer.
use mapepire_rs.Prelude.{◌≡◌, refl, String, none, ok}
use mapepire_rs.Prelude.Text.{str_eq_refl}
use mapepire_rs.Protocol.Response.{pong}
use mapepire_rs.Protocol.Ids.{next}
use mapepire_rs.Protocol.Rendering.{Rendering}
use mapepire_rs.Transport.Kinds.{request_id, pending_kind, remap_response}
use mapepire_rs.Client.{Session, Server}
use mapepire_rs.Job.Trace.{TraceLevel, TraceDest}
use mapepire_rs.Job
use mapepire_rs.Job.{prepare, db_job_name, set_trace_config, fetch_trace}

-- A daemon that answers each request with a plain acknowledgement of its id, as the dispatcher
-- passes it on.
unfoldable pub acking : Server
unfolding remap_response pending_kind request_id
acking s request = ok (remap_response (pending_kind request) (pong (request_id request)))

-- Against a daemon that answers everything with a plain acknowledgement, a ping, a change of the
-- trace settings, a prepare and a fetch of the trace succeed in every session; the prepared
-- statement has no handle, and the trace is empty.
pub acks_succeed :
    (r : Rendering) (dest : TraceDest) (level : TraceLevel) (sql : String) (s : Session)
    → ((Job.ping r acking s).0 ≡ ok tt)
      × ((set_trace_config r acking dest level s).0 ≡ ok tt)
      × ((prepare r acking sql s).0 ≡ ok (record { cont_id = none; sql = sql }))
      × ((fetch_trace r acking s).0 ≡ ok "")
unfolding Job.ping set_trace_config prepare fetch_trace acking
acks_succeed r dest level sql s = rw (str_eq_refl (next s.ids).0) (refl, refl, refl, refl)
