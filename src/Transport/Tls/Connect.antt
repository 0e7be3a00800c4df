-- ===== src/Transport/Tls/Connect.antt =====
-- src/transport/tls.rs with `rustls-tls`: `connect` and the fetch of a certificate.
use Prim.Native.String.{◌++◌}
use mapepire_rs.Prelude.{
  ℕ, String, List, [], ◌∷◌, Option, none, some, Result, ok, err, ◌>>=◌, map_err, ok_or,
}
use mapepire_rs.Prelude.Text.{show_ℕ}
use mapepire_rs.Config.{TlsConfig, verified, ca, insecure, DaemonServer, tcp_target}
use mapepire_rs.Error.{Error, transport, io, internal}
use mapepire_rs.Transport.Tls.Process.{Process, ensure_crypto_provider, tracing_warn_insecure_once}
use mapepire_rs.Transport.Tls.Rustls.{
  Der, ClientConfig, Tcp, TlsStream, Rustls, pin_or_webpki, no_verify,
}

-- `format!("{host}:{port}")`.
abbrev pub address : String × ℕ → String
address target = target.0 ++ (":" ++ show_ℕ target.1)

unfoldable pub io_error : String → Error
io_error e = transport (io e)

unfoldable pub ca_config : Rustls → Der → Result ClientConfig Error
ca_config lib der = do
  roots ← map_err (λ e. internal ("invalid Ca cert: " ++ e)) (lib.add der lib.server_roots)
  inner ← map_err (λ e. internal ("tls verifier: " ++ e)) (lib.build roots)
  ok (record { verifier = pin_or_webpki der inner })

unfoldable pub client_config : Rustls → TlsConfig → Process → Result ClientConfig Error × Process
unfolding ca_config
client_config lib verified p = (ok (record { verifier = lib.webpki lib.server_roots }), p)
client_config lib (ca der) p = (ca_config lib der, p)
client_config lib insecure p = (ok (record { verifier = no_verify }), tracing_warn_insecure_once p)

-- `ServerName::try_from` and `TlsConnector::connect`.
unfoldable pub start_tls : Rustls → String → Tcp → ClientConfig → Result TlsStream Error
unfolding io_error
start_tls lib host tcp config = do
  dns ← ok_or (internal ("invalid hostname: " ++ host)) (lib.server_name host)
  map_err io_error (lib.handshake config dns tcp)

unfoldable pub tls_handshake :
    Rustls → DaemonServer → Tcp → Process → Result TlsStream Error × Process
unfolding client_config start_tls
tls_handshake lib server tcp p =
    let (config, p') = client_config lib server.tls (ensure_crypto_provider p) in
    (config >>= start_tls lib server.host tcp, p')

unfoldable pub connect : Rustls → DaemonServer → Process → Result TlsStream Error × Process
unfolding tls_handshake io_error
connect lib server p = elim (lib.tcp_connect (address (tcp_target server))) [
  | err e ↦ (err (io_error e), p)
  | ok tcp ↦ tls_handshake lib server tcp p
]

-- The first certificate of the chain that the server presented.
unfoldable pub leaf_of : Option (List Der) → Result Der Error
leaf_of none = err (internal "server did not present a certificate chain")
leaf_of (some []) = err (internal "server presented an empty certificate chain")
leaf_of (some (leaf ∷ rest)) = ok leaf

unfoldable pub fetch_certificate_from :
    Rustls
    → (server_name connect_address : String) (port : ℕ) → Process
    → Result Der Error × Process
unfolding start_tls leaf_of io_error
fetch_certificate_from lib server_name connect_address port p =
    elim (lib.tcp_connect (address (connect_address, port))) [
      | err e ↦ (err (io_error e), ensure_crypto_provider p)
      | ok tcp ↦ (
        start_tls lib server_name tcp (record { verifier = no_verify }) >>= λ stream.
            leaf_of stream.peer_certificates,
        tracing_warn_insecure_once (ensure_crypto_provider p),
      )
    ]

unfoldable pub fetch_certificate :
    Rustls → (host : String) (port : ℕ) → Process → Result Der Error × Process
unfolding fetch_certificate_from
fetch_certificate lib host port p = fetch_certificate_from lib host host port p
