-- ===== src/Transport/Tls/Native.antt =====
-- src/transport/tls.rs with `native-tls` and without `rustls-tls`.
use Prim.Native.String.{◌++◌}
use mapepire_rs.Prelude.{
  ℕ, String, Bool, true, false, List, [], ◌∷◌, Option, Result, ok, err, ◌>>=◌, map_err, ok_or,
}
use mapepire_rs.Config.{TlsConfig, verified, ca, insecure, DaemonServer, tcp_target}
use mapepire_rs.Error.{Error, internal}
use mapepire_rs.Transport.Tls.Process.{Process, tracing_warn_insecure_once}
use mapepire_rs.Transport.Tls.Rustls.{Der, Tcp}
use mapepire_rs.Transport.Tls.Connect.{address, io_error}

-- What the calls on `native_tls::TlsConnector::builder()` set.
pub record NativeBuilder : Type 0 where
  pub roots : List Der
  pub accept_invalid_certs : Bool
  pub accept_invalid_hostnames : Bool

-- The functions of native-tls; a stream is the certificate that `peer_certificate` gives.
pub record NativeTls : Type 0 where
  pub tcp_connect : String → Result Tcp String
  pub from_der : Der → Result Der String
  pub build : NativeBuilder → Result NativeBuilder String
  pub handshake : NativeBuilder → String → Tcp → Result (Result (Option Der) String) String
  pub to_der : Der → Result Der String

abbrev new_builder : NativeBuilder
new_builder = record { roots = []; accept_invalid_certs = false; accept_invalid_hostnames = false }

abbrev accept_all : NativeBuilder
accept_all = record { roots = []; accept_invalid_certs = true; accept_invalid_hostnames = true }

unfoldable pub native_builder :
    NativeTls → TlsConfig → Process → Result NativeBuilder Error × Process
native_builder lib verified p = (ok new_builder, p)
native_builder lib (ca der) p = (
  map_err (λ e. internal ("invalid Ca cert: " ++ e)) (lib.from_der der) >>= λ cert. ok (record {
    roots = cert ∷ [];
    accept_invalid_certs = false;
    accept_invalid_hostnames = false;
  }),
  p,
)
native_builder lib insecure p = (ok accept_all, tracing_warn_insecure_once p)

abbrev pub NativeStream : Type 0
NativeStream = Result (Option Der) String

unfoldable pub start_native : NativeTls → String → Tcp → NativeBuilder → Result NativeStream Error
start_native lib host tcp builder = do
  connector ← map_err (λ e. internal ("native-tls builder: " ++ e)) (lib.build builder)
  map_err (λ e. internal ("native-tls handshake: " ++ e)) (lib.handshake connector host tcp)

unfoldable pub native_handshake :
    NativeTls → DaemonServer → Tcp → Process → Result NativeStream Error × Process
unfolding native_builder start_native
native_handshake lib server tcp p =
    let (builder, p') = native_builder lib server.tls p in
    (builder >>= start_native lib server.host tcp, p')

unfoldable pub native_connect :
    NativeTls → DaemonServer → Process → Result NativeStream Error × Process
unfolding native_handshake io_error
native_connect lib server p = elim (lib.tcp_connect (address (tcp_target server))) [
  | err e ↦ (err (io_error e), p)
  | ok tcp ↦ native_handshake lib server tcp p
]

native_leaf : NativeTls → NativeStream → Result Der Error
unfolding io_error
native_leaf lib stream = do
  presented ← map_err io_error stream
  cert ← ok_or (internal "server did not present a certificate") presented
  map_err io_error (lib.to_der cert)

unfoldable pub native_fetch_certificate_from :
    NativeTls
    → (server_name connect_address : String) (port : ℕ) → Process
    → Result Der Error × Process
unfolding start_native native_leaf io_error
native_fetch_certificate_from lib server_name connect_address port p =
    elim (lib.tcp_connect (address (connect_address, port))) [
      | err e ↦ (err (io_error e), p)
      | ok tcp ↦ (
        start_native lib server_name tcp accept_all >>= native_leaf lib,
        tracing_warn_insecure_once p,
      )
    ]
