-- ===== src/Config.antt =====
-- src/config.rs: how to reach a daemon, and the builder of it. A password is a text.
use mapepire_rs.Prelude.{
  ℕ, ◌≡◌, String, ◌&&◌, Option, none, some, refl, List, [], ◌∷◌, unwrap_or, is_some, Result, ok,
  ◌>>=◌, ok_or, is_ok, arith,
}

pub data TlsConfig : Type 0 where
  verified : TlsConfig
  ca : List ℕ → TlsConfig
  insecure : TlsConfig

pub record DaemonServer : Type 0 where
  pub host : String
  pub connect_address : Option String
  pub port : ℕ
  pub user : String
  pub password : String
  pub tls : TlsConfig
  pub jdbc_props : Option String
  pub application : String

abbrev pub default_port : ℕ
default_port = 8076

unfoldable pub tcp_target : DaemonServer → String × ℕ
tcp_target s = (unwrap_or s.connect_address s.host, s.port)

pub record DaemonServerBuilder : Type 0 where
  pub host : Option String
  pub connect_address : Option String
  pub port : Option ℕ
  pub user : Option String
  pub password : Option String
  pub tls : Option TlsConfig
  pub jdbc_props : Option String
  pub application : Option String

pub data BuilderError : Type 0 where
  missing_field : String → BuilderError

-- The setters of the builder.

abbrev pub no_settings : DaemonServerBuilder
no_settings = record {
  host = none;
  connect_address = none;
  port = none;
  user = none;
  password = none;
  tls = none;
  jdbc_props = none;
  application = none;
}

unfoldable pub set_host : String → DaemonServerBuilder → DaemonServerBuilder
set_host host b = record b { host = some host }

unfoldable pub set_connect_address : String → DaemonServerBuilder → DaemonServerBuilder
set_connect_address addr b = record b { connect_address = some addr }

unfoldable pub set_port : ℕ → DaemonServerBuilder → DaemonServerBuilder
set_port port b = record b { port = some port }

unfoldable pub set_user : String → DaemonServerBuilder → DaemonServerBuilder
set_user user b = record b { user = some user }

unfoldable pub set_password : String → DaemonServerBuilder → DaemonServerBuilder
set_password password b = record b { password = some password }

unfoldable pub set_tls : TlsConfig → DaemonServerBuilder → DaemonServerBuilder
set_tls tls b = record b { tls = some tls }

unfoldable pub set_jdbc_props : String → DaemonServerBuilder → DaemonServerBuilder
set_jdbc_props props b = record b { jdbc_props = some props }

unfoldable pub set_application : String → DaemonServerBuilder → DaemonServerBuilder
set_application name b = record b { application = some name }

-- `DaemonServerBuilder::build`.
unfoldable pub build_server : DaemonServerBuilder → Result DaemonServer BuilderError
build_server b = do
  host ← ok_or (missing_field "host") b.host
  user ← ok_or (missing_field "user") b.user
  password ← ok_or (missing_field "password") b.password
  ok (record {
    host = host;
    connect_address = b.connect_address;
    port = unwrap_or b.port default_port;
    user = user;
    password = password;
    tls = unwrap_or b.tls verified;
    jdbc_props = b.jdbc_props;
    application = unwrap_or b.application "mapepire-rs";
  })

-- A builder yields a server exactly when host, user and password are set.
pub build_server_needs :
    (b : DaemonServerBuilder)
    → is_ok (build_server b) ≡ is_some b.host && is_some b.user && is_some b.password
unfolding build_server
build_server_needs b = ground arith

-- One call of a setter.
pub data Setting : Type 0 where
  host connect_address user password jdbc_props application : String → Setting
  port : ℕ → Setting
  tls : TlsConfig → Setting

abbrev pub set : Setting → DaemonServerBuilder → DaemonServerBuilder
set (Setting.host x) = set_host x
set (Setting.connect_address x) = set_connect_address x
set (Setting.user x) = set_user x
set (Setting.password x) = set_password x
set (Setting.jdbc_props x) = set_jdbc_props x
set (Setting.application x) = set_application x
set (Setting.port n) = set_port n
set (Setting.tls t) = set_tls t

-- A chain of setters, the first call first.
abbrev pub set_all : List Setting → DaemonServerBuilder → DaemonServerBuilder
set_all [] b = b
set_all (x ∷ xs) b = set_all xs (set x b)

abbrev optional_setting : (String → Setting) → Option String → List Setting → List Setting
optional_setting make none rest = rest
optional_setting make (some x) rest = make x ∷ rest

-- The calls that describe a server, without those of the optional fields that it does not have.
abbrev pub describe : DaemonServer → List Setting
describe s =
    Setting.host s.host
    ∷ Setting.user s.user
    ∷ Setting.password s.password
    ∷ Setting.port s.port
    ∷ Setting.tls s.tls
    ∷ Setting.application s.application
    ∷ optional_setting Setting.connect_address s.connect_address
        (optional_setting Setting.jdbc_props s.jdbc_props [])

-- Every server description is what the builder yields from the calls that describe it.
pub build_server-describe :
    (s : DaemonServer) → build_server (set_all (describe s) no_settings) ≡ ok s
unfolding build_server set_host set_connect_address set_port set_user set_password set_tls
    set_jdbc_props set_application
build_server-describe s = go s.connect_address s.jdbc_props
  where
    go :
        (addr props : Option String)
        → let t : DaemonServer = record s { connect_address = addr; jdbc_props = props } in
          build_server (set_all (describe t) no_settings) ≡ ok t
    go none none = refl
    go none (some p) = refl
    go (some a) none = refl
    go (some a) (some p) = refl
