-- ===== src/Transport/Dispatcher.antt =====
-- src/transport/dispatcher.rs: the loop `run` as a step function over the events that its `select!`
-- can see, with the map of pending requests, the shared counter and the replies given so far.
-- A caller's oneshot channel is a number; a sender that is dropped unused is a reply `dropped`.
pub mod Table
pub mod Cases
pub mod Replies
pub mod Stop
pub mod Counter
pub mod Shared
pub mod Routing
pub mod Faults
pub mod Spec
pub mod Keys
pub mod Settled
pub mod Matching
pub mod Refinement
use Prim.Native.String.{◌++◌}
use mapepire_rs.Prelude.{
  ℕ, String, Bool, true, false, Option, none, some, List, [], ◌∷◌, ◌++◌ as append, map,
  if◌then◌else◌, unwrap_or, bind_opt, map_opt, is_some, add_u32, sub_u32, Result, ok, err,
}
use mapepire_rs.Protocol.Json.{Value, object, Fields, get_str}
use mapepire_rs.Protocol.Response.{Response}
use mapepire_rs.Protocol.Response.Rows.{terse_text}
use mapepire_rs.Protocol.Rendering.{Rendering}
use mapepire_rs.Protocol.Decode.{decode_value}
use mapepire_rs.Error.{
  Error, transport, protocol, TransportError, closed, ProtocolError, json,
  terse_rows_without_columns,
}
use mapepire_rs.Transport.Kinds.{PendingKind, remap_response, response_id}
use text.Mathlib.Text.{find?}
use Table.{Pending, Map, take_entry, insert_entry}

pub data Reply : Type 0 where
  answered : Result Response Error → Reply
  dropped : Reply

-- What `DispatcherHandle::send` makes of the reply: a dropped sender is `Closed`.
unfoldable pub received : Reply → Result Response Error
received (answered r) = r
received dropped = err (transport closed)

pub record Outbound : Type 0 where
  pub id : String
  pub reply : ℕ
  pub kind : PendingKind

pub data Event : Type 0 where
  -- A request is taken from the queue; `transport.send` succeeds or fails.
  outbound : Outbound → Option TransportError → Event
  -- `rx.recv()` is `None`: all handles are gone.
  handles_dropped : Event
  -- `transport.next()`: a frame, an error or the end of the stream.
  frame : List ℕ → Event
  broken : TransportError → Event
  peer_closed : Event
  -- `Drop for Dispatcher` aborts the task.
  aborted : Event

pub record Dispatcher : Type 0 where
  pub running : Bool
  pub pending : Map
  pub in_flight : ℕ
  pub replies : List (ℕ × Reply)

unfoldable pub spawn : Dispatcher
spawn = record { running = true; pending = []; in_flight = 0; replies = [] }

abbrev give : ℕ → Reply → Dispatcher → Dispatcher
give slot reply s = record s { replies = (slot, reply) ∷ s.replies }

-- A slot leaves `pending`: the counter falls by one and the caller has its reply.
abbrev settle : Pending → Result Response Error → Dispatcher → Dispatcher
settle p result s = record s {
  in_flight = sub_u32 s.in_flight;
  replies = (p.reply, answered result) ∷ s.replies;
}

-- The loop of the two drains over the entries after the first.
settle_all : Map → Dispatcher → Dispatcher
settle_all [] s = s
settle_all ((id, p) ∷ m) s = settle_all m (settle p (err (transport closed)) s)

unfoldable pub drain_pending_with_error : Error → Dispatcher → Dispatcher
unfolding settle_all
drain_pending_with_error e s = elim s.pending [
  | [] ↦ s
  | (id, p) ∷ m ↦ settle_all m (settle p (err e) (record s { pending = [] }))
]

unfoldable pub drain_pending : TransportError → Dispatcher → Dispatcher
unfolding drain_pending_with_error
drain_pending e s = drain_pending_with_error (transport e) s

abbrev stop : Dispatcher → Dispatcher
stop s = record s { running = false }

-- The map goes out of scope with its senders.
drop_all : Map → List (ℕ × Reply) → List (ℕ × Reply)
drop_all [] out = out
drop_all ((id, p) ∷ m) out = drop_all m ((p.reply, dropped) ∷ out)

unfoldable pub drop_pending : Dispatcher → Dispatcher
unfolding drop_all
drop_pending s = record s { pending = []; replies = drop_all s.pending s.replies }

abbrev drop_replaced : Option (Pending × Map) → List (ℕ × Reply) → List (ℕ × Reply)
drop_replaced none out = out
drop_replaced (some (old, rest)) out = (old.reply, dropped) ∷ out

unfoldable pub on_outbound : Outbound → Option TransportError → Dispatcher → Dispatcher
unfolding drain_pending take_entry insert_entry
on_outbound o (some e) s =
    stop (drain_pending closed (give o.reply (answered (err (transport e))) s))
on_outbound o none s = record s {
  in_flight = add_u32 s.in_flight;
  replies = drop_replaced (take_entry o.id s.pending) s.replies;
  pending = insert_entry o.id (record { reply = o.reply; kind = o.kind }) s.pending;
}

-- The pending request of an id is removed and answered; without one nothing happens.
unfoldable pub complete : String → (PendingKind → Result Response Error) → Dispatcher → Dispatcher
unfolding take_entry
complete id make s = elim (take_entry id s.pending) [
  | none ↦ s
  | some (p, rest) ↦ settle p (make p.kind) (record s { pending = rest })
]

unfoldable pub protocol_decode_error : String → ProtocolError
protocol_decode_error message =
    if is_some (find? message terse_text) then terse_rows_without_columns else json message

-- `value.get("id").and_then(Value::as_str)`.
unfoldable pub value_id : Value → Option String
value_id (object fs) = get_str "id" fs
value_id other = none

-- `parse` is `serde_json::from_slice`, with the message of its error.
module _ (r : Rendering) (parse : List ℕ → Result Value String) where
  unfoldable pub on_value : Value → Dispatcher → Dispatcher
  unfolding complete protocol_decode_error value_id
  on_value v s = elim (decode_value r v) [
    | ok response ↦ complete (response_id response) (λ k. ok (remap_response k response)) s
    | err message ↦ elim (value_id v) [
      | none ↦ s
      | some id ↦ complete id (λ k. err (protocol (protocol_decode_error message))) s
    ]
  ]

  unfoldable pub on_frame : List ℕ → Dispatcher → Dispatcher
  unfolding on_value drain_pending_with_error
  on_frame bytes s = elim (parse bytes) [
    | ok v ↦ on_value v s
    | err message ↦ stop (drain_pending_with_error (protocol (json message)) s)
  ]

  unfoldable pub react : Event → Dispatcher → Dispatcher
  unfolding on_outbound on_frame drain_pending drain_pending_with_error drop_pending
  react (outbound o failure) s = on_outbound o failure s
  react handles_dropped s = stop (drop_pending s)
  react (frame bytes) s = on_frame bytes s
  react (broken e) s = stop (drain_pending_with_error (transport e) s)
  react peer_closed s = stop (drain_pending closed s)
  react aborted s = stop (drop_pending s)

  -- The task has returned: what is still queued, or sent later, is dropped with the receiver.
  unfoldable pub after_stop : Event → Dispatcher → Dispatcher
  after_stop (outbound o failure) s = give o.reply dropped s
  after_stop _ s = s

  unfoldable pub step : Event → Dispatcher → Dispatcher
  unfolding react after_stop
  step e s = if s.running then react e s else after_stop e s

  unfoldable pub run : List Event → Dispatcher → Dispatcher
  unfolding step
  run [] s = s
  run (e ∷ es) s = run es (step e s)
