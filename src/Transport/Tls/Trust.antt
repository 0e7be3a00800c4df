-- ===== src/Transport/Tls/Trust.antt =====
-- src/transport/tls.rs: which certificates a connection accepts.
use mapepire_rs.Prelude.{
  String, List, some, ◌≡◌, subst, ◌⊎◌, inl, inr, Bool-cases, ap, ◌∙◌, sym, Result, ok, err, bind_ok,
  map_err, ok_or, map_err_ok, ok_or_ok, Result-cases, if◌then◌else◌, arith,
}
use mapepire_rs.Config.{TlsConfig, verified, ca, insecure, DaemonServer, tcp_target}
use mapepire_rs.Error.{Error}
use mapepire_rs.Transport.Tls.Process.{Process, ensure_crypto_provider}
use mapepire_rs.Transport.Tls.Rustls.{
  Der, Verifier, ClientConfig, Tcp, TlsStream, Rustls, pin_or_webpki, no_verify, bytes_eq,
  bytes_eq→≡,
}
use mapepire_rs.Transport.Tls.Connect.{
  address, ca_config, client_config, start_tls, tls_handshake, connect,
}

-- A verifier accepts what a server showed under a name.
unfoldable pub Accepts : Verifier → String → TlsStream → Type 0
Accepts v name s =
    v.verify_server_cert s.end_entity s.intermediates name s.ocsp_response s.now ≡ ok tt

-- rustls finishes a handshake only if the verifier of its configuration accepts.
unfoldable pub Verifies : Rustls → Type 0
Verifies lib =
    (config : ClientConfig) (name : String) (tcp : Tcp) (s : TlsStream)
    → lib.handshake config name tcp ≡ ok s
    → Accepts config.verifier name s

-- What the setting of a server asks of the certificate it shows under a name.
unfoldable pub Trusted : Rustls → TlsConfig → String → TlsStream → Type 0
Trusted lib verified name s = Accepts (lib.webpki lib.server_roots) name s
Trusted lib (ca der) name s =
    (s.end_entity ≡ der)
    ⊎ ((roots : List Der) × (inner : Verifier) × (lib.add der lib.server_roots ≡ ok roots)
        × (lib.build roots ≡ ok inner)
        × Accepts inner name s)
Trusted lib insecure name s = Unit

pub start_tls-ok :
    (lib : Rustls) (host : String) (tcp : Tcp) (config : ClientConfig) (s : TlsStream)
    → start_tls lib host tcp config ≡ ok s
    → (name : String) × (lib.server_name host ≡ some name) × (lib.handshake config name tcp ≡ ok s)
unfolding start_tls
start_tls-ok lib host tcp config s h =
    let (name, named, shaken) = bind_ok (ok_or _ (lib.server_name host)) _ s h in
    (name, ok_or_ok _ _ name named, map_err_ok _ _ s shaken)

pin_or_webpki-Accepts :
    (pin : Der) (inner : Verifier) (name : String) (s : TlsStream)
    → Accepts (pin_or_webpki pin inner) name s
    → (s.end_entity ≡ pin) ⊎ Accepts inner name s
unfolding pin_or_webpki Accepts
pin_or_webpki-Accepts pin inner name s h = elim (Bool-cases (bytes_eq s.end_entity pin)) [
  | inl e ↦ inl (bytes_eq→≡ s.end_entity pin e)
  | inr e ↦ inr (
      sym (
        ap
          (λ b.
            if b
            then ok tt
            else inner.verify_server_cert s.end_entity s.intermediates name s.ocsp_response s.now)
          e)
      ∙ h)
]

abbrev pub verifier_of : Result ClientConfig Error → Verifier
verifier_of (ok config) = config.verifier
verifier_of (err e) = no_verify

client_config-Trusted :
    (lib : Rustls) (tls : TlsConfig) (p : Process) (config : ClientConfig) (name : String)
    (s : TlsStream)
    → (client_config lib tls p).0 ≡ ok config
    → Accepts config.verifier name s
    → Trusted lib tls name s
unfolding client_config ca_config Trusted Accepts
client_config-Trusted lib verified p config name s h a =
    subst (λ r. Accepts (verifier_of r) name s) (sym h) a
client_config-Trusted lib (ca der) p config name s h a =
    let (roots, added, rest) = bind_ok (map_err _ (lib.add der lib.server_roots)) _ config h in
    let (inner, built, made) = bind_ok (map_err _ (lib.build roots)) _ config rest in
    elim (pin_or_webpki-Accepts der inner name s
      (subst (λ r. Accepts (verifier_of r) name s) (sym made) a)) [
        | inl e ↦ inl e
        | inr e ↦ inr (roots, inner, map_err_ok _ _ roots added, map_err_ok _ _ inner built, e)
      ]
client_config-Trusted lib insecure p config name s h a = tt

connect_ok :
    (lib : Rustls) (server : DaemonServer) (p : Process) (s : TlsStream)
    → (connect lib server p).0 ≡ ok s
    → (tcp : Tcp) × (lib.tcp_connect (address (tcp_target server)) ≡ ok tcp)
      × ((tls_handshake lib server tcp p).0 ≡ ok s)
unfolding connect
connect_ok lib server p s h = elim (Result-cases (lib.tcp_connect (address (tcp_target server)))) [
  | inl (tcp, e) ↦ (tcp, e, rw (connect, e) at h)
  | inr (t, e) ↦ absurd (ground arith)
]

-- If rustls asks its verifier, a connection that opens is the stream of a handshake, with the
-- configuration that the setting chooses, over the TCP connection to the address of the server. The
-- certificate shown in that stream was accepted under the name `host`: by the public roots for
-- `Verified`; for `Ca` the leaf is the pinned one, or the roots with the pin among them accept it.
pub connect-Trusted :
    (lib : Rustls) (server : DaemonServer) (p : Process) (s : TlsStream)
    → Verifies lib
    → (connect lib server p).0 ≡ ok s
    → (tcp : Tcp) × (name : String) × (config : ClientConfig) × (lib.tcp_connect
          (address (tcp_target server))
        ≡ ok tcp)
      × (lib.server_name server.host ≡ some name)
      × ((client_config lib server.tls (ensure_crypto_provider p)).0 ≡ ok config)
      × (lib.handshake config name tcp ≡ ok s)
      × Trusted lib server.tls name s
unfolding tls_handshake Verifies
connect-Trusted lib server p s v h =
    let (tcp, opened, shaken) = connect_ok lib server p s h in
    let (config, chosen, started) =
      bind_ok (client_config lib server.tls (ensure_crypto_provider p)).0 _ s shaken in
    let (name, named, finished) = start_tls-ok lib server.host tcp config s started in
    (
      tcp,
      name,
      config,
      opened,
      named,
      chosen,
      finished,
      client_config-Trusted lib server.tls _ config name s chosen (v config name tcp s finished),
    )
