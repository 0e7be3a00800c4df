-- ===== src/Tests/Runs.antt =====
-- Instances for whole runs: of the dispatcher, of a call over it, and of a collection.
use mapepire_rs.Prelude.{
  is_some, ℕ, ◌+◌, refl, String, true, false, none, some, List, [], ◌∷◌, Result, ok,
}
use mapepire_rs.Protocol.Json.{Fields}
use mapepire_rs.Protocol.Response.{Response}
use mapepire_rs.Prelude.Text.{show_ℕ}
use mapepire_rs.Protocol.Ids.{next}
use mapepire_rs.Error.{Error}
use mapepire_rs.Transport.Kinds.{request_id}
use mapepire_rs.Transport.Kinds
use mapepire_rs.Transport.Dispatcher.{Event, outbound, frame, peer_closed, spawn, run}
use mapepire_rs.Transport.Dispatcher.Keys.{HasKeysOnce}
use mapepire_rs.Transport.Dispatcher.Spec.{Steps}
use mapepire_rs.Transport.Dispatcher.Matching.{view}
use mapepire_rs.Transport.Dispatcher.Refinement.{run_refines}
use mapepire_rs.Query.Stream.{StreamState}
use mapepire_rs.Query.Stream.Ending.{Ends, Yields, over, page}
use mapepire_rs.Query.Stream.Termination.{Yields-Ends}
use mapepire_rs.Prelude.{Bool, ◌≡◌, ◌++◌, unwrap_or, if◌then◌else◌}
use mapepire_rs.Prelude.Text.{str_eq}
use mapepire_rs.Protocol.Json.{Value, object, get_str, get}
use mapepire_rs.Protocol.Request.{Request}
use mapepire_rs.Protocol.Response.{pong}
use mapepire_rs.Protocol.Encode.Request.{encode_request}
use mapepire_rs.Protocol.Encode.Response.{encode_response}
use mapepire_rs.Protocol.RoundTrip.RequestFields.{IsWritable}
use mapepire_rs.Protocol.RoundTrip.Response.{FitsResponse}
use mapepire_rs.Transport.Kinds.{pending_kind, remap_response, response_id}
use mapepire_rs.Transport.Tls.Rustls.{bytes_eq}
use mapepire_rs.Transport.Exchange.{
  JsonText, ReadsBack, send, bytes_of, daemon, send-daemon, send_returns,
}
use mapepire_rs.Tests.{plain, parse_sample, new_session, ids_a, a_row, paging, result_of}

abbrev ask : String → ℕ → Event
ask id slot = outbound (record { id = id; reply = slot; kind = Kinds.ping }) none

-- Two requests, the answer to the second, and the end of the connection.
abbrev life : List Event
life = ask "a-0" 7 ∷ ask "a-1" 8 ∷ frame (2 ∷ []) ∷ peer_closed ∷ ask "a-2" 9 ∷ []

run_refines_example :
    Steps plain parse_sample life (view spawn) (view (run plain parse_sample life spawn))
    × HasKeysOnce (run plain parse_sample life spawn).pending
unfolding spawn
run_refines_example = run_refines plain parse_sample life spawn tt

abbrev told : Response → String
told r = "response"

abbrev keep : Fields → Result Fields Error
keep fs = ok fs

abbrev at_end : StreamState
at_end = record { rows = []; cont_id = some "a-9"; done = false; ids = ids_a; page_size = 10 }

one_more : Yields told (paging true) keep at_end new_session (0 + 1)
unfolding paging next show_ℕ
one_more =
    page at_end new_session "a-9" (result_of "a-0" (a_row ∷ []) true) 1 refl refl refl refl
      (λ e. cc) (over _ _ refl)

Yields-Ends_example : Ends told (paging true) keep (0 + 1) at_end new_session
Yields-Ends_example = Yields-Ends told (paging true) keep at_end new_session (0 + 1) one_more

is_ping : Value → Bool
unfolding get_str
is_ping (object fs) = str_eq (unwrap_or (get_str "type" fs) "") "ping"
is_ping other = false

abbrev ponging : Request → Response
ponging request = pong (request_id request)

abbrev pinging : Request
pinging = Request.ping "a-0"

-- A writer that tells apart the two objects of a ping.
abbrev two_texts : JsonText
two_texts = record {
  to_vec = λ v. if is_ping v then 1 ∷ [] else 2 ∷ [];
  from_slice = λ bytes.
      if bytes_eq bytes (1 ∷ [])
      then ok (object (encode_request pinging))
      else ok (object (encode_response (pong "a-0")));
}

send-daemon_example :
    send plain two_texts 7 pinging none
      ([] ++ frame (daemon two_texts ponging (bytes_of two_texts pinging)) ∷ [])
      spawn
    ≡ some (ok (remap_response (pending_kind pinging) (pong "a-0")))
unfolding ReadsBack encode_request encode_response is_ping request_id response_id spawn IsWritable
    get FitsResponse
send-daemon_example =
    send-daemon plain two_texts ponging 7 pinging [] spawn refl refl tt tt refl refl tt

send_returns_example :
    is_some (
      send plain two_texts 7 pinging none
        (peer_closed ∷ [])
        (run plain two_texts.from_slice (ask "a-1" 8 ∷ []) spawn))
    ≡ true
unfolding run spawn
send_returns_example =
    send_returns plain two_texts 7 pinging (ask "a-1" 8 ∷ []) (peer_closed ∷ []) none refl
