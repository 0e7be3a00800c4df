-- ===== src/Transport/Tls/NativeErrors.antt =====
-- src/transport/tls.rs with `native-tls`: the class of its errors.
use mapepire_rs.Prelude.{String, Bool, true, false, ◌≡◌, ok, err, arith}
use mapepire_rs.Config.{DaemonServer, tcp_target}
use mapepire_rs.Error.{Error, internal}
use mapepire_rs.Transport.Tls.Process.{Process}
use mapepire_rs.Transport.Tls.Rustls.{Tcp}
use mapepire_rs.Transport.Tls.Connect.{address}
use mapepire_rs.Transport.Tls.Native.{
  NativeTls, NativeBuilder, start_native, native_connect, native_handshake, native_builder,
}

-- An error of the class `Internal`.
abbrev pub is_internal : Error → Bool
is_internal (internal text) = true
is_internal _ = false

start_native-internal :
    (lib : NativeTls) (host : String) (tcp : Tcp) (b : NativeBuilder) (e : Error)
    → start_native lib host tcp b ≡ err e
    → is_internal e ≡ true
unfolding start_native
start_native-internal lib host tcp b e h = ground arith

-- Over native-tls, a connect that fails once its TCP connection is open fails as `Internal`,
-- whatever the TLS failure is.
pub native_tls_failure_is_internal :
    (lib : NativeTls) (server : DaemonServer) (p : Process) (tcp : Tcp) (e : Error)
    → lib.tcp_connect (address (tcp_target server)) ≡ ok tcp
    → (native_connect lib server p).0 ≡ err e
    → is_internal e ≡ true
unfolding native_connect native_handshake native_builder
native_tls_failure_is_internal lib server p tcp e up h =
    ground (arith, start_native-internal lib server.host tcp)
