-- ===== src/Transport/Upgrade.antt =====
-- src/transport/handshake.rs: TCP, TLS and the WebSocket upgrade that `connect` starts with, and the
-- credentials in the upgrade request. base64 and tungstenite are parameters.
use Prim.Native.String.{◌++◌}
use mapepire_rs.Prelude.{
  ℕ, ◌≡◌, refl, String, Option, some, List, [], ◌∷◌, if◌then◌else◌, Result, ok, ◌>>=◌, map_err,
  bind_ok, map_err_ok,
}
use mapepire_rs.Prelude.Text.{show_ℕ, str_eq}
use mapepire_rs.Config.{DaemonServer, tcp_target}
use mapepire_rs.Debug.{debug_server}
use mapepire_rs.Error.{Error, internal}
use mapepire_rs.Protocol.Response.{Response}
use mapepire_rs.Client.{Server}
use mapepire_rs.Transport.Handshake.{
  UpgradeError, map_upgrade_error, Connection, connect_request, open_session, open_session_ok,
}
use mapepire_rs.Transport.Tls.Process.{Process, ensure_crypto_provider}
use mapepire_rs.Transport.Tls.Rustls.{Rustls, Tcp, TlsStream, ClientConfig}
use mapepire_rs.Transport.Tls.Connect.{connect, address, client_config}
use mapepire_rs.Transport.Tls.Trust.{Verifies, Trusted, connect-Trusted}

pub record WsRequest : Type 0 where
  pub uri : String
  pub headers : List (String × String)

-- `STANDARD.encode`, the random key of `generate_key`, the checks of the `http` builder, and
-- `client_async`, with a status as it prints.
pub record Web : Type 0 where
  pub base64 : String → String
  pub generate_key : String
  pub build : WsRequest → Result WsRequest String
  pub client_async : WsRequest → TlsStream → Result (Unit {0}) UpgradeError
  pub status_text : ℕ → String

unfoldable pub basic_authorization : Web → (user pass : String) → String
basic_authorization web user pass = "Basic " ++ web.base64 (user ++ (":" ++ pass))

unfoldable pub ws_request : Web → DaemonServer → WsRequest
unfolding basic_authorization
ws_request web server = record {
  uri = "wss://" ++ (server.host ++ (":" ++ (show_ℕ server.port ++ "/db/")));
  headers =
      ("Host", server.host)
      ∷ ("Authorization", basic_authorization web server.user server.password)
      ∷ ("Upgrade", "websocket")
      ∷ ("Connection", "Upgrade")
      ∷ ("Sec-WebSocket-Version", "13")
      ∷ ("Sec-WebSocket-Key", web.generate_key)
      ∷ [];
}

-- The part of `connect` before the dispatcher is spawned.
unfoldable pub upgrade : Rustls → Web → Process → DaemonServer → Result (Unit {0}) Error
unfolding ws_request
upgrade lib web p server = do
  stream ← (connect lib server p).0
  request ←
      map_err (λ e. internal ("malformed ws request: " ++ e)) (web.build (ws_request web server))
  map_err (map_upgrade_error web.status_text) (web.client_async request stream)

upgrade-ok :
    (lib : Rustls) (web : Web) (p : Process) (server : DaemonServer)
    → upgrade lib web p server ≡ ok tt
    → (stream : TlsStream) × (request : WsRequest) × ((connect lib server p).0 ≡ ok stream)
      × (web.build (ws_request web server) ≡ ok request)
      × (web.client_async request stream ≡ ok tt)
unfolding upgrade
upgrade-ok lib web p server h =
    let (stream, opened, rest) = bind_ok (connect lib server p).0 _ tt h in
    let (request, built, sent) =
      bind_ok (map_err _ (web.build (ws_request web server))) _ tt rest in
    (stream, request, opened, map_err_ok _ _ request built, map_err_ok _ _ tt sent)

-- If rustls asks its verifier, a session opens only over the stream that `connect` returned, and
-- the upgrade request, with the credentials, was sent on that stream. It is the stream of the TLS
-- handshake over the TCP connection to the address of the server, and the certificate that it shows
-- was accepted under the name `host` as the setting of the server asks.
pub open_session-Trusted :
    (lib : Rustls) (web : Web) (p : Process) (debug : Response → String) (serve : Server)
    (nanos pid : ℕ) (server : DaemonServer) (c : Connection)
    → Verifies lib
    → open_session debug (upgrade lib web p) serve nanos pid server ≡ ok c
    → (stream : TlsStream) × (request : WsRequest) × (tcp : Tcp) × (name : String)
      × (config : ClientConfig) × ((connect lib server p).0 ≡ ok stream)
      × (web.build (ws_request web server) ≡ ok request)
      × (web.client_async request stream ≡ ok tt)
      × (lib.tcp_connect (address (tcp_target server)) ≡ ok tcp)
      × (lib.server_name server.host ≡ some name)
      × ((client_config lib server.tls (ensure_crypto_provider p)).0 ≡ ok config)
      × (lib.handshake config name tcp ≡ ok stream)
      × Trusted lib server.tls name stream
open_session-Trusted lib web p debug serve nanos pid server c v h =
    let up = (open_session_ok debug (upgrade lib web p) serve nanos pid server c h).0 in
    let (stream, request, opened, built, sent) = upgrade-ok lib web p server up in
    let (tcp, name, config, dialled, named, chosen, shaken, trusted) =
      connect-Trusted lib server p stream v opened in
    (
      stream, request, tcp, name, config, opened, built, sent, dialled, named, chosen, shaken,
      trusted,
    )

abbrev drop_authorization : List (String × String) → List (String × String)
drop_authorization [] = []
drop_authorization ((name, value) ∷ headers) =
    if str_eq name "Authorization"
    then drop_authorization headers
    else (name, value) ∷ drop_authorization headers

-- The same server with other credentials and another TCP address.
abbrev pub with_login : (user password : String) → Option String → DaemonServer → DaemonServer
with_login user password address' server = record server {
  user = user;
  password = password;
  connect_address = address';
}

-- The user, the password and the TCP address show in the `Authorization` header at most: neither
-- the URI, nor the other headers, nor the connect request depend on them. What Debug shows of the
-- server does not depend on the password.
pub login_only_in_authorization :
    (web : Web) (server : DaemonServer) (user password : String) (address' : Option String)
    (id : String)
    → ((ws_request web (with_login user password address' server)).uri
        ≡ (ws_request web server).uri)
      × (drop_authorization (ws_request web (with_login user password address' server)).headers
          ≡ drop_authorization (ws_request web server).headers)
      × (connect_request id (with_login user password address' server) ≡ connect_request id server)
      × (debug_server (record server { password = password }) ≡ debug_server server)
unfolding ws_request connect_request debug_server
login_only_in_authorization web server user password address' id = (refl, refl, refl, refl)
