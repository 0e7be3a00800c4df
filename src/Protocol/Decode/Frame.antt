-- ===== src/Protocol/Decode/Frame.antt =====
-- src/protocol/decode.rs: `decode_value`.
use mapepire_rs.Prelude.{String, if◌then◌else◌, Result, err}
use mapepire_rs.Protocol.Json.{Value, object, contains_key}
use mapepire_rs.Protocol.Response.{Response}
use mapepire_rs.Protocol.Rendering.{Rendering}
use mapepire_rs.Protocol.Decode.Tagged.{decode_tagged}
use mapepire_rs.Protocol.Decode.Untagged.{decode_untagged}

unfoldable pub decode_value : Rendering → Value → Result Response String
unfolding decode_tagged decode_untagged
decode_value r (object fs) =
    if contains_key "type" fs then decode_tagged r fs else decode_untagged r fs
decode_value r other = err "response is not a JSON object"
