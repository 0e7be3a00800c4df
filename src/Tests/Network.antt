-- ===== src/Tests/Network.antt =====
-- Instances for TLS, the upgrade and the socket.
use mapepire_rs.Prelude.{
  ◌≡◌, refl, String, true, false, if◌then◌else◌, none, some, List, [], ◌∷◌, Result, ok, err, subst,
}
use mapepire_rs.Prelude.Text.{show_ℕ, str_eq}
use mapepire_rs.Protocol.Response.{Response, connected}
use mapepire_rs.Protocol.Ids.{new, next}
use mapepire_rs.Error.{internal}
use mapepire_rs.Client.{Server}
use mapepire_rs.Config.{DaemonServer, ca, tcp_target}
use mapepire_rs.Transport.Dispatcher.{spawn, run}
use mapepire_rs.Transport.Handshake.{Connection, open_session, connect_request}
use mapepire_rs.Transport.Tls.Process.{ensure_crypto_provider, Process, warning}
use mapepire_rs.Transport.Tls.Rustls.{
  ClientConfig, Der, Verifier, Tcp, TlsStream, Rustls, pin_or_webpki, no_verify,
}
use mapepire_rs.Transport.Tls.Connect.{
  client_config, address, connect, fetch_certificate_from, ca_config,
}
use mapepire_rs.Transport.Tls.Trust.{Accepts, Verifies, Trusted}
use mapepire_rs.Transport.Tls.Pinning.{
  Presents, fetched_pin-Accepts, Call, connect_to, fetch_from, after_calls, warns_once,
}
use mapepire_rs.Transport.Tls.Native.{NativeTls, native_connect}
use mapepire_rs.Transport.Tls.NativeErrors.{is_internal, native_tls_failure_is_internal}
use mapepire_rs.Transport.Upgrade.{WsRequest, ws_request, Web, upgrade, open_session-Trusted}
use mapepire_rs.Transport.Socket.{
  Message, Inner, ready, WsError, polls, events, without_control, run-without_control,
}
use mapepire_rs.Transport.Socket
use mapepire_rs.Tests.{plain, parse_sample}

abbrev leaf : Der
leaf = 48 ∷ 130 ∷ []

-- What the daemon shows to every client.
abbrev shown : TlsStream
shown = record {
  end_entity = leaf;
  intermediates = [];
  ocsp_response = [];
  now = 5;
  peer_certificates = some (leaf ∷ []);
}

-- A verifier of roots that knows no name but `h`.
abbrev knows : Verifier
knows = record {
  verify_server_cert = λ end_entity intermediates name ocsp now.
      if str_eq name "h" then ok tt else err "NotValidForName";
  verify_tls12_signature = λ message cert dss. ok tt;
  verify_tls13_signature = λ message cert dss. ok tt;
  supported_verify_schemes = [];
}

verified_stream : Result (Unit {0}) String → Result TlsStream String
verified_stream (ok u) = ok shown
verified_stream (err e) = err e

abbrev rustls : Rustls
rustls = record {
  tcp_connect = λ target. ok (record { peer_addr = target });
  server_roots = (1 ∷ []) ∷ [];
  add = λ der roots. ok (der ∷ roots);
  webpki = λ roots. knows;
  build = λ roots. ok knows;
  server_name = λ host. some host;
  handshake =
      λ config name tcp. verified_stream (config.verifier.verify_server_cert leaf [] name [] 5);
}

verified_stream-ok :
    (r : Result (Unit {0}) String) (s : TlsStream)
    → verified_stream r ≡ ok s
    → (r ≡ ok tt) × (shown ≡ s)
unfolding verified_stream
verified_stream-ok (ok u) s h = (refl, cc)
verified_stream-ok (err e) s h = absurd (cc)

rustls-Verifies : Verifies rustls
unfolding Verifies Accepts
rustls-Verifies config name tcp s h =
    let (accepted, same) =
      verified_stream-ok (config.verifier.verify_server_cert leaf [] name [] 5) s h in
    subst (Accepts config.verifier name) same accepted

rustls-Presents : Presents rustls
unfolding Presents
rustls-Presents config name tcp s h =
    let (accepted, same) =
      verified_stream-ok (config.verifier.verify_server_cert leaf [] name [] 5) s h in
    subst (λ t. t.peer_certificates ≡ some (t.end_entity ∷ t.intermediates)) same refl

abbrev web : Web
web = record {
  base64 = λ text. text;
  generate_key = "key";
  build = λ request. ok request;
  client_async = λ request stream. ok tt;
  status_text = show_ℕ;
}

abbrev server : DaemonServer
server = record {
  host = "h";
  connect_address = some "10.0.0.1";
  port = 8076;
  user = "u";
  password = "p";
  tls = ca leaf;
  jdbc_props = none;
  application = "mapepire-rs";
}

abbrev quiet : Process
quiet = record { provider = none; warned = false; stderr = [] }

abbrev welcoming : Server
welcoming s request = ok (connected "id" "2.0" "JOB")

abbrev told : Response → String
told r = "response"

abbrev opened : Connection
opened = record {
  version = "2.0";
  initial_job = "JOB";
  session = record {
    ids = (next (new 0 0)).1;
    sent = connect_request (next (new 0 0)).0 server ∷ [];
  };
}

open_session-Trusted_example :
    (stream : TlsStream) × (request : WsRequest) × (tcp : Tcp) × (name : String)
    × (config : ClientConfig) × ((connect rustls server quiet).0 ≡ ok stream)
    × (web.build (ws_request web server) ≡ ok request)
    × (web.client_async request stream ≡ ok tt)
    × (rustls.tcp_connect (address (tcp_target server)) ≡ ok tcp)
    × (rustls.server_name server.host ≡ some name)
    × ((client_config rustls server.tls (ensure_crypto_provider quiet)).0 ≡ ok config)
    × (rustls.handshake config name tcp ≡ ok stream)
    × Trusted rustls server.tls name stream
unfolding open_session upgrade connect verified_stream pin_or_webpki
open_session-Trusted_example =
    open_session-Trusted rustls web quiet told welcoming 0 0 server opened rustls-Verifies refl

fetched_pin-Accepts_example :
    ((tcp : Tcp) × (sni : String) × (s : TlsStream) × (rustls.tcp_connect (address ("h", 8076))
        ≡ ok tcp)
      × (rustls.server_name "h" ≡ some sni)
      × (rustls.handshake (record { verifier = no_verify }) sni tcp ≡ ok s)
      × (s.end_entity ≡ leaf))
    × ((fetch_certificate_from rustls "h" "h" 8076 quiet).1.warned ≡ true)
    × Accepts (pin_or_webpki leaf knows) "other" shown
unfolding fetch_certificate_from verified_stream ca_config no_verify
fetched_pin-Accepts_example =
    fetched_pin-Accepts rustls "h" "h" 8076 quiet leaf
      (record { verifier = pin_or_webpki leaf knows }) "other" shown rustls-Presents refl refl refl

abbrev calls : List Call
calls = connect_to server ∷ fetch_from "h" "h" 8076 ∷ fetch_from "h" "10.0.0.1" 8076 ∷ []

warns_once_example :
    ((after_calls rustls calls quiet).stderr ≡ warning ∷ [])
    × ((after_calls rustls calls quiet).warned ≡ true)
warns_once_example = warns_once rustls calls quiet

-- A native-tls that finds no certificate to trust.
abbrev native : NativeTls
native = record {
  tcp_connect = λ target. ok (record { peer_addr = target });
  from_der = λ der. ok der;
  build = λ b. ok b;
  handshake = λ b host tcp. err "self-signed certificate";
  to_der = λ der. ok der;
}

native_tls_failure_is_internal_example :
    is_internal (internal "native-tls handshake: self-signed certificate") ≡ true
unfolding native_connect tcp_target show_ℕ
native_tls_failure_is_internal_example =
    native_tls_failure_is_internal native server quiet (record { peer_addr = "10.0.0.1:8076" })
      (internal "native-tls handshake: self-signed certificate") refl refl

abbrev polled : Inner
polled =
    ready (some (ok (Socket.ping (9 ∷ []))))
    ∷ ready (some (ok (Socket.text (1 ∷ []))))
    ∷ ready (some (ok (Socket.close [])))
    ∷ []

run-without_control_example :
    run plain parse_sample (events (polls 2 (without_control polled))) spawn
    ≡ run plain parse_sample (events (polls 2 polled)) spawn
unfolding spawn
run-without_control_example = run-without_control plain parse_sample 2 polled spawn
