-- ===== src/Tests.antt =====
-- Tests and concrete instances of the theorems. This file holds the values that they share.
pub mod Connection
pub mod Wire
pub mod Faults
pub mod Calls
pub mod Pools
pub mod RoundTrips
pub mod Runs
pub mod Network
pub mod Checkout
use mapepire_rs.Prelude.{
  ℕ, zero, suc, String, Bool, true, false, Option, none, some, List, [], ◌∷◌, Result, ok, err, refl,
}
use mapepire_rs.Protocol.Json.{Value, object, string, bool, float, Fields, field, end}
use mapepire_rs.Protocol.Serde.{SerdeError, custom}
use mapepire_rs.Protocol.Response.{pos, Column, QueryMetaData, QueryResult, Response, query_result}
use mapepire_rs.Protocol.Request.{Request}
use mapepire_rs.Protocol.Rendering.{Rendering}
use mapepire_rs.Protocol.Ids.{IdAllocator}
use mapepire_rs.Transport.Kinds.{request_id}
use mapepire_rs.Error.{Error}
use mapepire_rs.Client.{Session, Server}

abbrev message_of : SerdeError → String
message_of (custom m) = m
message_of _ = "serde"

abbrev pub plain : Rendering
plain = record {
  serde_text = message_of;
  value_text = λ v. "value";
  response_text = λ r. "response";
  custom_text = λ m. refl;
}

-- The acknowledgement of an id.
abbrev pub ack : String → Fields
ack id = field "id" (string id) (field "success" (bool true) end)

-- Frame 1 acknowledges "a-0" and frame 2 acknowledges "a-1"; the others are no JSON.
abbrev pub parse_sample : List ℕ → Result Value String
parse_sample (suc zero ∷ []) = ok (object (ack "a-0"))
parse_sample (suc (suc zero) ∷ []) = ok (object (ack "a-1"))
parse_sample _ = err "not JSON"

abbrev pub ids_a : IdAllocator
ids_a = record { prefix = "a"; counter = 0 }

abbrev pub new_session : Session
new_session = record { ids = ids_a; sent = [] }

-- A page of one row, or of none.
abbrev pub result_of : String → List Fields → Bool → QueryResult
result_of id rows is_done = record {
  id = id;
  success = true;
  has_results = true;
  update_count = pos 0;
  cont_id = none;
  is_done = is_done;
  metadata = record { column_count = 0; columns = []; job = none; parameters = [] };
  rows = rows;
  execution_time = float 0;
  error = none;
  sqlcode = none;
  sqlstate = none;
  parameter_count = none;
  output_parms = [];
}

abbrev pub a_row : Fields
a_row = field "N" (bool true) end

-- Every request has a page of one row that is not the last, or the last.
unfoldable pub paging : Bool → Server
unfolding request_id
paging is_done s request = ok (query_result (result_of (request_id request) (a_row ∷ []) is_done))

unfoldable pub empty_pages : Server
unfolding request_id
empty_pages s request = ok (query_result (result_of (request_id request) [] false))
