-- ===== src/Transport/Tls/Pinning.antt =====
-- src/transport/tls.rs: pinning a fetched certificate, and the warnings of a process.
use mapepire_rs.Prelude.{
  Bool, false, ◌&&◌, ◌||◌, not, is_ok, ℕ, String, true, List, [], ◌∷◌, Option, some, ◌≡◌, refl,
  subst, ap, inl, inr, ok, bind_ok, map_err, Result-cases, if◌then◌else◌, arith,
}
use mapepire_rs.Config.{TlsConfig, verified, ca, insecure, DaemonServer, tcp_target}
use mapepire_rs.Transport.Tls.Process.{
  Process, ensure_crypto_provider, tracing_warn_insecure_once, warn-warned, warning,
}
use mapepire_rs.Transport.Tls.Rustls.{
  Der, Verifier, ClientConfig, Tcp, TlsStream, Rustls, pin_or_webpki, no_verify, bytes_eq,
  bytes_eq_self,
}
use mapepire_rs.Transport.Tls.Connect.{
  address, ca_config, client_config, start_tls, tls_handshake, connect, leaf_of,
  fetch_certificate_from,
}
use mapepire_rs.Transport.Tls.Trust.{Accepts, start_tls-ok, verifier_of}

-- `peer_certificates` of a finished handshake is the chain of the server, its leaf first.
unfoldable pub Presents : Rustls → Type 0
Presents lib =
    (config : ClientConfig) (name : String) (tcp : Tcp) (s : TlsStream)
    → lib.handshake config name tcp ≡ ok s
    → s.peer_certificates ≡ some (s.end_entity ∷ s.intermediates)

pin_or_webpki_self :
    (pin : Der) (inner : Verifier) (name : String) (s : TlsStream)
    → s.end_entity ≡ pin
    → Accepts (pin_or_webpki pin inner) name s
unfolding pin_or_webpki Accepts
pin_or_webpki_self pin inner name s leaf =
    ap
      (λ b.
        if b
        then ok tt
        else inner.verify_server_cert s.end_entity s.intermediates name s.ocsp_response s.now)
      (subst (λ d. bytes_eq s.end_entity d ≡ true) leaf (bytes_eq_self s.end_entity))

pin-Accepts :
    (lib : Rustls) (der : Der) (config : ClientConfig) (name : String) (s : TlsStream)
    → ca_config lib der ≡ ok config
    → s.end_entity ≡ der
    → Accepts config.verifier name s
unfolding ca_config Accepts pin_or_webpki
pin-Accepts lib der config name s h leaf =
    let (roots, added, rest) = bind_ok (map_err _ (lib.add der lib.server_roots)) _ config h in
    let (inner, built, made) = bind_ok (map_err _ (lib.build roots)) _ config rest in
    subst (λ r. Accepts (verifier_of r) name s) made (pin_or_webpki_self der inner name s leaf)

leaf_of-ok :
    (leaf : Der) (rest : List Der) (chain : Option (List Der)) (der : Der)
    → chain ≡ some (leaf ∷ rest)
    → leaf_of chain ≡ ok der
    → leaf ≡ der
unfolding leaf_of
leaf_of-ok leaf rest chain der c h = ground arith

-- A fetch opens a session under the server name at the TCP address, without verification, and
-- yields the leaf that the server showed in it; the process has warned by then. A server that is
-- pinned to what was fetched is trusted under every name, whatever else it shows, as long as its
-- leaf is the fetched one.
pub fetched_pin-Accepts :
    (lib : Rustls) (server_name connect_address : String) (port : ℕ) (p : Process) (der : Der)
    (config : ClientConfig) (name : String) (s : TlsStream)
    → Presents lib
    → (fetch_certificate_from lib server_name connect_address port p).0 ≡ ok der
    → ca_config lib der ≡ ok config
    → s.end_entity ≡ der
    → ((tcp : Tcp) × (sni : String) × (shown : TlsStream) × (lib.tcp_connect
            (address (connect_address, port))
          ≡ ok tcp)
        × (lib.server_name server_name ≡ some sni)
        × (lib.handshake (record { verifier = no_verify }) sni tcp ≡ ok shown)
        × (shown.end_entity ≡ der))
      × ((fetch_certificate_from lib server_name connect_address port p).1.warned ≡ true)
      × Accepts config.verifier name s
unfolding fetch_certificate_from Presents
fetched_pin-Accepts lib server_name connect_address port p der config name s shows h made leaf =
    elim (Result-cases (lib.tcp_connect (address (connect_address, port)))) [
      | inr (t, e) ↦ absurd (ground arith)
      | inl (tcp, e) ↦
          let (shown, started, got) =
            bind_ok (start_tls lib server_name tcp (record { verifier = no_verify })) _ der
              (rw (fetch_certificate_from, e) at h) in
          let (sni, named, finished) = start_tls-ok lib server_name tcp _ shown started in
          (
            (
              tcp,
              sni,
              shown,
              e,
              named,
              finished,
              leaf_of-ok _ _ _ der (shows _ sni tcp shown finished) got,
            ),
            rw (fetch_certificate_from, e) (warn-warned (ensure_crypto_provider p)),
            pin-Accepts lib der config name s made leaf,
          )
    ]

-- The calls of the TLS layer.
pub data Call : Type 0 where
  connect_to : DaemonServer → Call
  fetch_from : (server_name connect_address : String) (port : ℕ) → Call

abbrev pub after_call : Rustls → Call → Process → Process
after_call lib (connect_to server) p = (connect lib server p).1
after_call lib (fetch_from name addr port) p = (fetch_certificate_from lib name addr port p).1

abbrev pub after_calls : Rustls → List Call → Process → Process
after_calls lib [] p = p
after_calls lib (c ∷ cs) p = after_calls lib cs (after_call lib c p)

abbrev is_insecure : TlsConfig → Bool
is_insecure insecure = true
is_insecure _ = false

-- A call that comes to open an unverified session: its TCP connection opens.
abbrev pub opens_unverified : Rustls → Call → Bool
opens_unverified lib (connect_to server) =
    is_insecure server.tls && is_ok (lib.tcp_connect (address (tcp_target server)))
opens_unverified lib (fetch_from name addr port) = is_ok (lib.tcp_connect (address (addr, port)))

abbrev pub any_unverified : Rustls → List Call → Bool
any_unverified lib [] = false
any_unverified lib (c ∷ cs) = opens_unverified lib c || any_unverified lib cs

-- What the warning leaves of a process, if it is due.
abbrev Warns : Bool → Process → Process → Type 0
Warns due p q =
    (q.stderr ≡ (if due && not p.warned then warning ∷ p.stderr else p.stderr))
    × (q.warned ≡ due || p.warned)

client_config-Warns :
    (lib : Rustls) (tls : TlsConfig) (p : Process)
    → Warns (is_insecure tls) p (client_config lib tls p).1
unfolding client_config tracing_warn_insecure_once
client_config-Warns lib verified p = (refl, refl)
client_config-Warns lib (ca der) p = (refl, refl)
client_config-Warns lib insecure p = (ground arith, ground arith)

after_call-Warns :
    (lib : Rustls) (c : Call) (p : Process) → Warns (opens_unverified lib c) p (after_call lib c p)
unfolding connect tls_handshake fetch_certificate_from ensure_crypto_provider
    tracing_warn_insecure_once
after_call-Warns lib (connect_to server) p =
    ground (arith, client_config-Warns lib server.tls (ensure_crypto_provider p))
after_call-Warns lib (fetch_from name addr port) p = ground arith

-- Whatever calls a process makes, connects and fetches that succeed or fail, it prints the warning
-- once, if it has not warned before and one of the calls comes to open an unverified session, which
-- a fetch does and a connect to an `Insecure` server, once TCP is up. Else it prints nothing.
pub warns_once :
    (lib : Rustls) (cs : List Call) (p : Process)
    → ((after_calls lib cs p).stderr
        ≡ (if any_unverified lib cs && not p.warned then warning ∷ p.stderr else p.stderr))
      × ((after_calls lib cs p).warned ≡ any_unverified lib cs || p.warned)
warns_once lib [] p = (refl, refl)
warns_once lib (c ∷ cs) p =
    ground (arith, after_call-Warns lib c p, warns_once lib cs (after_call lib c p))
