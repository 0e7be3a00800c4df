-- ===== src/Transport/Tls/Rustls.antt =====
-- What src/transport/tls.rs uses of rustls and tokio, as an interface, and its two certificate
-- verifiers. A certificate is the list of its DER bytes.
use mapepire_rs.Prelude.{
  ℕ, String, Bool, true, false, ◌==◌, ◌&&◌, ==_iff, refl, arith, Option, List, [], ◌∷◌, ◌≡◌,
  if◌then◌else◌, Result, ok,
}

abbrev pub Der : Type 0
Der = List ℕ

pub data SignatureScheme : Type 0 where
  rsa_pkcs1_sha256 rsa_pkcs1_sha384 rsa_pkcs1_sha512 : SignatureScheme
  ecdsa_nistp256_sha256 ecdsa_nistp384_sha384 ed25519 : SignatureScheme
  scheme : ℕ → SignatureScheme

-- `ServerCertVerifier`. A `rustls::Error` is its text.
pub record Verifier : Type 0 where
  pub verify_server_cert :
      (end_entity : Der) (intermediates : List Der) (server_name : String) (ocsp_response : List ℕ)
      (now : ℕ)
      → Result (Unit {0}) String
  pub verify_tls12_signature :
      (message : List ℕ) (cert : Der) (dss : List ℕ) → Result (Unit {0}) String
  pub verify_tls13_signature :
      (message : List ℕ) (cert : Der) (dss : List ℕ) → Result (Unit {0}) String
  pub supported_verify_schemes : List SignatureScheme

-- `with_no_client_auth` leaves nothing else to choose.
pub record ClientConfig : Type 0 where
  pub verifier : Verifier

pub record Tcp : Type 0 where
  pub peer_addr : String

-- A session after its handshake: what the server showed in it, and `peer_certificates`.
pub record TlsStream : Type 0 where
  pub end_entity : Der
  pub intermediates : List Der
  pub ocsp_response : List ℕ
  pub now : ℕ
  pub peer_certificates : Option (List Der)

-- The functions of the libraries: `webpki` is the verifier of a root store that
-- `with_root_certificates` sets, `build` the one of `WebPkiServerVerifier::builder`.
pub record Rustls : Type 0 where
  pub tcp_connect : String → Result Tcp String
  pub server_roots : List Der
  pub add : Der → List Der → Result (List Der) String
  pub webpki : List Der → Verifier
  pub build : List Der → Result Verifier String
  pub server_name : String → Option String
  pub handshake : ClientConfig → String → Tcp → Result TlsStream String

-- Equality of byte slices.
abbrev pub bytes_eq : List ℕ → List ℕ → Bool
bytes_eq [] [] = true
bytes_eq [] (b ∷ bs) = false
bytes_eq (a ∷ as') [] = false
bytes_eq (a ∷ as') (b ∷ bs) = (a == b) && bytes_eq as' bs

pub bytes_eq→≡ : (a b : List ℕ) → bytes_eq a b ≡ true → a ≡ b
bytes_eq→≡ [] [] h = refl
bytes_eq→≡ [] (b ∷ bs) h = absurd (cc)
bytes_eq→≡ (a ∷ as') [] h = absurd (cc)
bytes_eq→≡ (a ∷ as') (b ∷ bs) h = ground (arith, ==_iff a b, bytes_eq→≡ as' bs)

pub bytes_eq_self : (a : List ℕ) → bytes_eq a a ≡ true
bytes_eq_self [] = refl
bytes_eq_self (a ∷ as') = ground (arith, ==_iff a a, bytes_eq_self as')

unfoldable pub pin_or_webpki : Der → Verifier → Verifier
pin_or_webpki pin inner = record {
  verify_server_cert = λ end_entity intermediates server_name ocsp_response now.
      if bytes_eq end_entity pin
      then ok tt
      else inner.verify_server_cert end_entity intermediates server_name ocsp_response now;
  verify_tls12_signature = λ message cert dss. inner.verify_tls12_signature message cert dss;
  verify_tls13_signature = λ message cert dss. inner.verify_tls13_signature message cert dss;
  supported_verify_schemes = inner.supported_verify_schemes;
}

unfoldable pub no_verify : Verifier
no_verify = record {
  verify_server_cert = λ _ _ _ _ _. ok tt;
  verify_tls12_signature = λ _ _ _. ok tt;
  verify_tls13_signature = λ _ _ _. ok tt;
  supported_verify_schemes =
      rsa_pkcs1_sha256 ∷ rsa_pkcs1_sha384 ∷ rsa_pkcs1_sha512 ∷ ecdsa_nistp256_sha256
      ∷ ecdsa_nistp384_sha384 ∷ ed25519 ∷ [];
}
