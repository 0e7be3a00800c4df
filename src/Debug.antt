-- ===== src/Debug.antt =====
-- What `{:?}` shows of servers, in src/config.rs and src/password.rs, and in the child module of
-- requests: the calls on the `Formatter`, before they are laid out as text.
pub mod Requests
pub mod Faithful
use mapepire_rs.Prelude.{ℕ, String, Bool, Option, none, some, List, [], ◌∷◌}
use mapepire_rs.Protocol.Json.{Value}
use mapepire_rs.Protocol.Params.{Sets}
use mapepire_rs.Config.{TlsConfig, verified, ca, insecure, DaemonServer}

-- A value as its own Debug shows it: `raw` is a text given to `write_str`, `variant` a case of an
-- enum with its bytes.
pub data Leaf : Type 0 where
  quoted raw : String → Leaf
  num : ℕ → Leaf
  flag : Bool → Leaf
  values : List Value → Leaf
  sets : Sets → Leaf
  variant : String → List (List ℕ) → Leaf

-- The value of a field, as it is or in an Option.
pub data Shown : Type 0 where
  plain present : Leaf → Shown
  absent : Shown

-- `debug_struct(name).field(…).finish()`.
pub record DebugStruct : Type 0 where
  pub name : String
  pub fields : List (String × Shown)

unfoldable pub show_option : {A : Type 0} → (A → Leaf) → Option A → Shown
show_option leaf none = absent
show_option leaf (some a) = present (leaf a)

-- `impl Debug for Password`: a password is its text.
unfoldable pub debug_password : String → Leaf
debug_password password = raw "Password([REDACTED])"

unfoldable pub debug_tls : TlsConfig → Leaf
debug_tls verified = variant "Verified" []
debug_tls (ca der) = variant "Ca" (der ∷ [])
debug_tls insecure = variant "Insecure" []

unfoldable pub debug_server : DaemonServer → DebugStruct
unfolding show_option debug_password debug_tls
debug_server server = record {
  name = "DaemonServer";
  fields =
      ("host", plain (quoted server.host))
      ∷ ("connect_address", show_option quoted server.connect_address)
      ∷ ("port", plain (num server.port))
      ∷ ("user", plain (quoted server.user))
      ∷ ("password", plain (debug_password server.password))
      ∷ ("tls", plain (debug_tls server.tls))
      ∷ ("jdbc_props", show_option quoted server.jdbc_props)
      ∷ ("application", plain (quoted server.application))
      ∷ [];
}
