-- ===== src/Transport/Socket.antt =====
-- src/transport/socket.rs: the adapter between the WebSocket stream of tungstenite and the
-- dispatcher. The text of a frame is the list of its bytes.
use mapepire_rs.Prelude.{
  ℕ, zero, suc, ◌≡◌, refl, ap, ap₂, ◌∙◌, String, Bool, Option, none, some, List, [], ◌∷◌,
  if◌then◌else◌, Result, ok, err, map_err,
}
use mapepire_rs.Error.{TransportError, closed, io}
use mapepire_rs.Protocol.Json.{Value}
use mapepire_rs.Protocol.Rendering.{Rendering}
use mapepire_rs.Transport.Dispatcher.{Event, frame, broken, peer_closed, Dispatcher, run}

pub data Message : Type 0 where
  text binary ping pong raw_frame close : List ℕ → Message

-- The errors of tungstenite; `ws_other` is one that is not told apart, as it prints.
pub data WsError : Type 0 where
  connection_closed already_closed : WsError
  ws_io ws_other : String → WsError

pub data Poll {ℓ} (A : Type ℓ) : Type ℓ where
  pending : Poll A
  ready : A → Poll A

unfoldable pub map_ws_err : WsError → TransportError
map_ws_err connection_closed = closed
map_ws_err already_closed = closed
map_ws_err (ws_io e) = io e
map_ws_err (ws_other e) = io e

-- What the next polls of the inner stream give; then it is pending.
abbrev pub Inner : Type 0
Inner = List (Poll (Option (Result Message WsError)))

abbrev pub Polled : Type 0
Polled = Poll (Option (Result (List ℕ) TransportError))

-- `Stream::poll_next`, with the polls that are left.
unfoldable pub poll_next : Inner → Polled × Inner
unfolding map_ws_err
poll_next [] = (pending, [])
poll_next (pending ∷ inner) = (pending, inner)
poll_next (ready none ∷ inner) = (ready none, inner)
poll_next (ready (some (err e)) ∷ inner) = (ready (some (err (map_ws_err e))), inner)
poll_next (ready (some (ok (text s))) ∷ inner) = (ready (some (ok s)), inner)
poll_next (ready (some (ok (binary b))) ∷ inner) = (ready (some (ok b)), inner)
poll_next (ready (some (ok (ping b))) ∷ inner) = poll_next inner
poll_next (ready (some (ok (pong b))) ∷ inner) = poll_next inner
poll_next (ready (some (ok (raw_frame b))) ∷ inner) = poll_next inner
poll_next (ready (some (ok (close b))) ∷ inner) = (ready none, inner)

-- `Sink::start_send`: `is_utf8` is the test of `Utf8Bytes::try_from`, `send` the inner sink.
unfoldable pub start_send :
    (List ℕ → Bool)
    → (Message → Result (Unit {0}) WsError)
    → List ℕ
    → Result (Unit {0}) TransportError
unfolding map_ws_err
start_send is_utf8 send item =
    if is_utf8 item
    then map_err map_ws_err (send (text item))
    else err (io "non-UTF-8 bytes handed to WsTransport (caller contract violation)")

-- The next results of the adapter, and the events that the dispatcher takes from them.
abbrev pub polls : ℕ → Inner → List Polled
polls zero inner = []
polls (suc n) inner = (poll_next inner).0 ∷ polls n (poll_next inner).1

abbrev pub events : List Polled → List Event
events [] = []
events (pending ∷ ps) = events ps
events (ready none ∷ ps) = peer_closed ∷ events ps
events (ready (some (ok bytes)) ∷ ps) = frame bytes ∷ events ps
events (ready (some (err e)) ∷ ps) = broken e ∷ events ps

-- The stream without its pings, pongs and raw frames.
abbrev pub without_control : Inner → Inner
without_control [] = []
without_control (ready (some (ok (ping b))) ∷ inner) = without_control inner
without_control (ready (some (ok (pong b))) ∷ inner) = without_control inner
without_control (ready (some (ok (raw_frame b))) ∷ inner) = without_control inner
without_control (p ∷ inner) = p ∷ without_control inner

poll_next-without_control :
    (inner : Inner)
    → (((poll_next (without_control inner)).0 ≡ (poll_next inner).0)
        × ((poll_next (without_control inner)).1 ≡ without_control (poll_next inner).1))
unfolding poll_next
poll_next-without_control [] = (refl, refl)
poll_next-without_control (pending ∷ inner) = (refl, refl)
poll_next-without_control (ready none ∷ inner) = (refl, refl)
poll_next-without_control (ready (some (err e)) ∷ inner) = (refl, refl)
poll_next-without_control (ready (some (ok (text s))) ∷ inner) = (refl, refl)
poll_next-without_control (ready (some (ok (binary b))) ∷ inner) = (refl, refl)
poll_next-without_control (ready (some (ok (ping b))) ∷ inner) = poll_next-without_control inner
poll_next-without_control (ready (some (ok (pong b))) ∷ inner) = poll_next-without_control inner
poll_next-without_control (ready (some (ok (raw_frame b))) ∷ inner) =
    poll_next-without_control inner
poll_next-without_control (ready (some (ok (close b))) ∷ inner) = (refl, refl)

polls-without_control : (n : ℕ) (inner : Inner) → polls n (without_control inner) ≡ polls n inner
polls-without_control zero inner = refl
polls-without_control (suc n) inner =
    let (first, left) = poll_next-without_control inner in
    ap₂ ◌∷◌ first (ap (polls n) left ∙ polls-without_control n (poll_next inner).1)

-- Pings, pongs and raw frames, wherever they come in, are invisible to the dispatcher: after any
-- number of polls it is in the state that the stream without them leads to.
pub run-without_control :
    (r : Rendering) (parse : List ℕ → Result Value String) (n : ℕ) (inner : Inner) (s : Dispatcher)
    → run r parse (events (polls n (without_control inner))) s
      ≡ run r parse (events (polls n inner)) s
run-without_control r parse n inner s =
    ap (λ ps. run r parse (events ps) s) (polls-without_control n inner)
