-- ===== src/Transport/Handshake.antt =====
-- src/transport/handshake.rs: the request that opens a session, its answers, and the failures of
-- the upgrade. The TLS and WebSocket layers are a parameter.
use Prim.Native.String.{◌++◌}
use mapepire_rs.Prelude.{
  ℕ, ◌≡◌, ap, ◌∙◌, bind_ok, String, ◌||◌, [], ◌∷◌, ◌==◌, if◌then◌else◌, unwrap_or, Result, ok, err,
  ◌>>=◌,
}
use mapepire_rs.Protocol.Request.{Request}
use mapepire_rs.Protocol.Response.{Response, connected, error}
use mapepire_rs.Protocol.Ids.{new, next}
use mapepire_rs.Config.{DaemonServer}
use mapepire_rs.Error.{Error, auth, internal, protocol, correlation_mismatch}
use mapepire_rs.Client.{Session, Server}

-- The errors of tungstenite that the source tells apart, with their texts.
pub data UpgradeError : Type 0 where
  http : (status : ℕ) (text : String) → UpgradeError
  other : String → UpgradeError

abbrev upgrade_failed : String → Error
upgrade_failed text = internal ("websocket upgrade failed: " ++ text)

-- `res.status()` prints as `status_text`; `text` is the whole error as it prints.
unfoldable pub map_upgrade_error : (ℕ → String) → UpgradeError → Error
map_upgrade_error status_text (http status text) =
    if (status == 401) || (status == 403)
    then auth ("websocket upgrade rejected: HTTP " ++ status_text status)
    else upgrade_failed text
map_upgrade_error status_text (other text) = upgrade_failed text

-- `ConnectedDispatcher`, with the requests sent so far in its session.
pub record Connection : Type 0 where
  pub version : String
  pub initial_job : String
  pub session : Session

accept_connect : (Response → String) → String → Session → Response → Result Connection Error
accept_connect debug id s (connected got version job) =
    ok (record { version = version; initial_job = job; session = s })
accept_connect debug id s (error e) = err (auth (unwrap_or e.error "connect rejected"))
accept_connect debug id s answer = err (protocol (correlation_mismatch id (debug answer)))

-- The `connect` request of a server description.
unfoldable pub connect_request : String → DaemonServer → Request
connect_request id server = Request.connect id "tcp" server.application server.jdbc_props

-- `connect`: `upgrade` is what TCP, TLS and the WebSocket upgrade come to, the clock and the
-- process id are those that `IdAllocator::new` reads, and `debug` prints a response.
unfoldable pub open_session :
    (Response → String)
    → (DaemonServer → Result (Unit {0}) Error)
    → Server
    → (nanos pid : ℕ) → DaemonServer
    → Result Connection Error
unfolding accept_connect connect_request next
open_session debug upgrade serve nanos pid server = do
  _ ← upgrade server
  let (id, ids) = next (new nanos pid)
  let request = connect_request id server
  response ← serve (record { ids = ids; sent = [] }) request
  accept_connect debug id (record { ids = ids; sent = request ∷ [] }) response

accept_connect-ok :
    (debug : Response → String) (id : String) (s : Session) (answer : Response) (c : Connection)
    → accept_connect debug id s answer ≡ ok c
    → ((got : String) × (answer ≡ connected got c.version c.initial_job)) × (c.session ≡ s)
unfolding accept_connect
accept_connect-ok debug id s (connected got version job) c h = ((got, cc), cc)
accept_connect-ok debug id s _ c h = absurd (cc)

-- A session opens only when the upgrade succeeded and the daemon answered with a connection, whose
-- version and job it keeps. Exactly one request has been sent, the connect, under the first id of
-- a new allocator, and one id is used up.
pub open_session_ok :
    (debug : Response → String) (upgrade : DaemonServer → Result (Unit {0}) Error) (serve : Server)
    (nanos pid : ℕ) (server : DaemonServer) (c : Connection)
    → open_session debug upgrade serve nanos pid server ≡ ok c
    → let (id, ids) = next (new nanos pid) in
      let request = connect_request id server in
      (upgrade server ≡ ok tt)
      × ((got : String) × (serve (record { ids = ids; sent = [] }) request
            ≡ ok (connected got c.version c.initial_job)))
      × (c.session ≡ record { ids = ids; sent = request ∷ [] })
      × (c.session.ids.counter ≡ 1)
unfolding open_session new
open_session_ok debug upgrade serve nanos pid server c h =
    let (u, up, served) = bind_ok (upgrade server) _ c h in
    let (answer, got, taken) =
      bind_ok (serve _ (connect_request (next (new nanos pid)).0 server)) _ c served in
    let (from, session) = accept_connect-ok debug _ _ answer c taken in
    (up, (from.0, got ∙ ap ok from.1), session, ap (λ s. s.ids.counter) session)
