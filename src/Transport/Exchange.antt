-- ===== src/Transport/Exchange.antt =====
-- src/transport/dispatcher.rs, `DispatcherHandle::send`, from the call to its return, against a
-- daemon at the other end of the socket.
use mapepire_rs.Prelude.{
  ℕ, ◌≡◌, refl, ap, ◌∙◌, String, true, Option, none, some, List, [], ◌∷◌, ◌++◌, head?, ◌==◌, ◌≤◌,
  ◌+◌, false, is_some, subst, ==_iff, unwrap_or, if◌then◌else◌, Result, ok, err, arith,
}
use mapepire_rs.Protocol.Json.{Value, object}
use mapepire_rs.Protocol.Serde.{Decoded}
use mapepire_rs.Protocol.Rendering.{Rendering}
use mapepire_rs.Protocol.Request.{Request}
use mapepire_rs.Protocol.Response.{Response}
use mapepire_rs.Protocol.Encode.Request.{encode_request}
use mapepire_rs.Protocol.Encode.ReadRequest.{decode_request}
use mapepire_rs.Protocol.Encode.Response.{encode_response}
use mapepire_rs.Protocol.RoundTrip.RequestFields.{IsWritable}
use mapepire_rs.Protocol.RoundTrip.Request.{decode_request-encode_request}
use mapepire_rs.Protocol.RoundTrip.Response.{FitsResponse, decode_value-encode_response}
use mapepire_rs.Error.{Error, TransportError}
use mapepire_rs.Transport.Kinds.{request_id, pending_kind, remap_response, response_id}
use mapepire_rs.Transport.Dispatcher.{
  Outbound, Reply, received, Event, outbound, frame, Dispatcher, run, spawn, handles_dropped,
  broken, peer_closed, aborted,
}
use mapepire_rs.Transport.Dispatcher.Replies.{replied, submitted}
use mapepire_rs.Transport.Dispatcher.Stop.{every_caller_answered}
use mapepire_rs.Transport.Dispatcher.Routing.{AllSpare, reply_reaches_caller, run-append}

-- `serde_json::to_vec` and `serde_json::from_slice`.
pub record JsonText : Type 0 where
  pub to_vec : Value → List ℕ
  pub from_slice : List ℕ → Result Value String

-- A value that was written is read as it was.
unfoldable pub ReadsBack : JsonText → Value → Type 0
ReadsBack text v = text.from_slice (text.to_vec v) ≡ ok v

unfoldable pub outbound_of : ℕ → Request → Outbound
outbound_of slot q = record { id = request_id q; reply = slot; kind = pending_kind q }

unfoldable pub bytes_of : JsonText → Request → List ℕ
bytes_of text q = text.to_vec (object (encode_request q))

-- What a receiver finds: the latest reply to its slot.
abbrev reply_in : ℕ → List (ℕ × Reply) → Option Reply
reply_in slot [] = none
reply_in slot ((k, reply) ∷ rest) = if k == slot then some reply else reply_in slot rest

abbrev returned : Option Reply → Option (Result Response Error)
returned none = none
returned (some reply) = some (received reply)

-- The task takes the request, its write succeeds or fails, and then the task sees `events`; `none`
-- while there is no reply.
unfoldable pub send :
    Rendering
    → JsonText
    → (slot : ℕ) → Request
    → (failure : Option TransportError) → List Event
    → Dispatcher
    → Option (Result Response Error)
unfolding run outbound_of received
send r text slot q failure events s = returned (
    reply_in slot
      (run r text.from_slice (outbound (outbound_of slot q) failure ∷ events) s).replies)

-- The frame of a daemon that reads a request and answers it; no frame is the empty one.
abbrev reply_to : JsonText → (Request → Response) → Decoded Request → List ℕ
reply_to text serve (ok q) = text.to_vec (object (encode_response (serve q)))
reply_to text serve (err e) = []

abbrev read : JsonText → (Request → Response) → Result Value String → List ℕ
read text serve (ok (object fs)) = reply_to text serve (decode_request fs)
read text serve (ok other) = []
read text serve (err e) = []

unfoldable pub daemon : JsonText → (Request → Response) → List ℕ → List ℕ
daemon text serve bytes = read text serve (text.from_slice bytes)

daemon-bytes_of :
    (text : JsonText) (serve : Request → Response) (q : Request)
    → ReadsBack text (object (encode_request q))
    → IsWritable q
    → daemon text serve (bytes_of text q) ≡ text.to_vec (object (encode_response (serve q)))
unfolding daemon bytes_of ReadsBack
daemon-bytes_of text serve q back writable =
    ap (read text serve) back ∙ ap (reply_to text serve) (decode_request-encode_request q writable)

reply_in-head :
    (slot : ℕ) (reply : Reply) (replies : List (ℕ × Reply))
    → head? replies ≡ some (slot, reply)
    → reply_in slot replies ≡ some reply
reply_in-head slot reply [] h = absurd (cc)
reply_in-head slot reply ((k, x) ∷ rest) h =
    let first : k ≡ slot = ap (λ o. (unwrap_or {A = ℕ × Reply} o (k, x)).0) h in
    let same : x ≡ reply = ap (λ o. (unwrap_or {A = ℕ × Reply} o (k, x)).1) h in
    ground (arith, ==_iff k slot)

-- A request is written, and other requests and their answers go by; then the daemon's frame for the
-- bytes of the request comes in. The daemon has read the request that was sent, and the call returns
-- the response that the daemon gave to it, remapped by the kind of the request: on the way there and
-- back nothing is lost. This needs a request that can be written, a response whose numbers fit
-- and which carries the id of the request, and that serde_json reads the two as it wrote them.
pub send-daemon :
    (r : Rendering) (text : JsonText) (serve : Request → Response) (slot : ℕ) (q : Request)
    (es : List Event) (s : Dispatcher)
    → ReadsBack text (object (encode_request q))
    → ReadsBack text (object (encode_response (serve q)))
    → IsWritable q
    → FitsResponse (serve q)
    → response_id (serve q) ≡ request_id q
    → s.running ≡ true
    → AllSpare r text.from_slice (request_id q) es
    → send r text slot q none (es ++ frame (daemon text serve (bytes_of text q)) ∷ []) s
      ≡ some (ok (remap_response (pending_kind q) (serve q)))
unfolding send outbound_of received ReadsBack
send-daemon r text serve slot q es s sent back writable fits same on spare =
    let bytes = daemon text serve (bytes_of text q) in
    let v = object (encode_response (serve q)) in
    let told =
      reply_reaches_caller r text.from_slice (outbound_of slot q) es bytes v (serve q) s on spare
        (ap text.from_slice (daemon-bytes_of text serve q sent writable) ∙ back)
        (decode_value-encode_response r (serve q) fits) same in
    ap returned (reply_in-head slot _ _ told)

replied-reply_in :
    (slot : ℕ) (replies : List (ℕ × Reply))
    → 1 ≤ replied slot replies
    → is_some (reply_in slot replies) ≡ true
replied-reply_in slot [] h = absurd (omega arith)
replied-reply_in slot ((k, x) ∷ rest) h = ground (arith, replied-reply_in slot rest)

submitted-append :
    (slot : ℕ) (before after : List Event)
    → submitted slot (before ++ after) ≡ submitted slot before + submitted slot after
submitted-append slot [] after = omega arith
submitted-append slot (outbound o failure ∷ before) after =
    ground (arith, submitted-append slot before after)
submitted-append slot (handles_dropped ∷ before) after = submitted-append slot before after
submitted-append slot (frame bytes ∷ before) after = submitted-append slot before after
submitted-append slot (broken e ∷ before) after = submitted-append slot before after
submitted-append slot (peer_closed ∷ before) after = submitted-append slot before after
submitted-append slot (aborted ∷ before) after = submitted-append slot before after

returned-some : (o : Option Reply) → is_some o ≡ true → is_some (returned o) ≡ true
returned-some none h = h
returned-some (some reply) h = refl

submitted_own :
    (slot : ℕ) (q : Request) (failure : Option TransportError) (after : List Event)
    → 1 ≤ submitted slot (outbound (outbound_of slot q) failure ∷ after)
unfolding outbound_of
submitted_own slot q failure after = ground (arith, ==_iff slot slot)

-- No call hangs on a dead connection: whatever the connection has seen before, whether the write
-- succeeds, and whatever comes in after it, a call has returned, with a response or an error, once
-- the task has returned.
pub send_returns :
    (r : Rendering) (text : JsonText) (slot : ℕ) (q : Request) (before after : List Event)
    (failure : Option TransportError)
    → (run r text.from_slice
        (before ++ outbound (outbound_of slot q) failure ∷ after)
        spawn).running
      ≡ false
    → is_some (send r text slot q failure after (run r text.from_slice before spawn)) ≡ true
unfolding send
send_returns r text slot q before after failure off =
    let es : List Event = outbound (outbound_of slot q) failure ∷ after in
    let counted = (every_caller_answered r text.from_slice slot (before ++ es) off).0 in
    let found = replied-reply_in slot (run r text.from_slice (before ++ es) spawn).replies (
      omega
        (arith, counted, submitted-append slot before es, submitted_own slot q failure after)) in
    subst (λ d. is_some (returned (reply_in slot d.replies)) ≡ true)
      (run-append r text.from_slice before es spawn) (returned-some _ found)
