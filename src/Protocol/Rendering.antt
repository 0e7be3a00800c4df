-- ===== src/Protocol/Rendering.antt =====
-- Texts that serde, serde_json and the derived `Debug` produce; src/ only passes them on. A custom
-- error prints as the message that it was made of.
use mapepire_rs.Prelude.{String, ◌≡◌}
use mapepire_rs.Protocol.Json.{Value}
use mapepire_rs.Protocol.Serde.{SerdeError, custom}
use mapepire_rs.Protocol.Response.{Response}

pub record Rendering : Type 0 where
  pub serde_text : SerdeError → String
  pub value_text : Value → String
  pub response_text : Response → String
  pub custom_text : (m : String) → serde_text (custom m) ≡ m
