-- ===== src/Transport/Tls/Process.antt =====
-- src/transport/tls.rs: the state of the process that the TLS layer writes, namely the crypto
-- provider of rustls, the `Once` of the warning, and what has been printed to stderr.
use mapepire_rs.Prelude.{
  String, Bool, true, Option, some, List, ◌∷◌, ◌≡◌, refl, if◌then◌else◌, unwrap_or, Bool-cases, inl,
  inr,
}

pub record Process : Type 0 where
  pub provider : Option String
  pub warned : Bool
  pub stderr : List String

-- `install_default` fails, and is ignored, when there is a provider.
unfoldable pub ensure_crypto_provider : Process → Process
ensure_crypto_provider p = record {
  provider = some (unwrap_or p.provider "ring");
  warned = p.warned;
  stderr = p.stderr;
}

abbrev pub warning : String
warning =
    "WARNING: TlsConfig::Insecure is in use — TLS certificate verification is disabled. NEVER use this in production."

unfoldable pub tracing_warn_insecure_once : Process → Process
tracing_warn_insecure_once p =
    if p.warned
    then p
    else record { provider = p.provider; warned = true; stderr = warning ∷ p.stderr }

pub warn-warned : (p : Process) → (tracing_warn_insecure_once p).warned ≡ true
unfolding tracing_warn_insecure_once
warn-warned p = elim (Bool-cases p.warned) [ inl e ↦ rw (e) refl | inr e ↦ rw (e) refl ]
