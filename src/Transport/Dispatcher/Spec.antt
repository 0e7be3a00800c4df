-- ===== src/Transport/Dispatcher/Spec.antt =====
-- What src/transport/dispatcher.rs promises, without its map: an open connection is a function from
-- ids to waiting requests and the replies given so far. The order in which a stop settles the
-- requests is left open.
use mapepire_rs.Prelude.{
  ℕ, ◌≤◌, ◌≡◌, String, Option, none, some, List, [], ◌∷◌, ◌++◌, All, if◌then◌else◌, Result, ok, err,
}
use mapepire_rs.Prelude.Text.{str_eq}
use mapepire_rs.Protocol.Json.{Value}
use mapepire_rs.Protocol.Response.{Response}
use mapepire_rs.Protocol.Rendering.{Rendering}
use mapepire_rs.Protocol.Decode.{decode_value}
use mapepire_rs.Error.{Error, transport, protocol, TransportError}
use mapepire_rs.Transport.Kinds.{PendingKind, remap_response}
use mapepire_rs.Transport.Dispatcher.Table.{Pending}
use mapepire_rs.Transport.Dispatcher.Routing.{addressed}
use mapepire_rs.Transport.Dispatcher.Replies.{replied}
use mapepire_rs.Transport.Dispatcher.{
  Reply, answered, dropped, Outbound, Event, outbound, handles_dropped, frame, broken, peer_closed,
  aborted, protocol_decode_error,
}

abbrev pub Waiting : Type 0
Waiting = String → Option Pending

abbrev pub Log : Type 0
Log = List (ℕ × Reply)

pub data Spec : Type 0 where
  opened : Waiting → Log → Spec
  stopped : Log → Spec

-- The entry of one id is written over.
abbrev pub update : String → Option Pending → Waiting → Waiting
update id entry w j = if str_eq id j then entry else w j

-- The caller whose request is replaced has its sender dropped.
abbrev pub replaced : Option Pending → Log
replaced none = []
replaced (some p) = (p.reply, dropped) ∷ []

-- A reply that carries no response.
abbrev pub Fails : ℕ × Reply → Type 0
Fails (k, answered (ok response)) = ⊥
Fails (k, answered (err e)) = Unit
Fails (k, dropped) = Unit

-- Failures for the callers of the waiting requests, for each of them and for no other.
unfoldable pub Settles : Waiting → Log → Type 0
Settles w out =
    All Fails out
    × ((id : String) (p : Pending) → w id ≡ some p → 1 ≤ replied p.reply out)
    × ((k : ℕ)
        → 1 ≤ replied k out
        → (id : String) × (p : Pending) × (w id ≡ some p) × (p.reply ≡ k))

-- An event that hands the task no request.
abbrev pub NoRequest : Event → Type 0
NoRequest (outbound o failure) = ⊥
NoRequest _ = Unit

module _ (r : Rendering) where
  -- What a caller is told by a JSON value that names its request.
  abbrev pub verdict : Value → PendingKind → Result Response Error
  verdict v kind = elim (decode_value r v) [
    | ok response ↦ ok (remap_response kind response)
    | err message ↦ err (protocol (protocol_decode_error message))
  ]

module _ (r : Rendering) (parse : List ℕ → Result Value String) where
  -- The events that end the task, with the reply that a failed write gives first.
  pub data Stops : Event → Log → Type 0 where
    write_failed :
        (o : Outbound) (e : TransportError)
        → Stops (outbound o (some e)) ((o.reply, answered (err (transport e))) ∷ [])
    no_json :
        (bytes : List ℕ) (message : String) → parse bytes ≡ err message → Stops (frame bytes) []
    broke : (e : TransportError) → Stops (broken e) []
    peer_left : Stops peer_closed []
    handles_left : Stops handles_dropped []
    task_aborted : Stops aborted []

  pub data Step : Event → Spec → Spec → Type 0 where
    written :
        (o : Outbound) (w : Waiting) (log : Log)
        → Step (outbound o none) (opened w log) (
            opened
              (update o.id (some (record { reply = o.reply; kind = o.kind })) w)
              (replaced (w o.id) ++ log))
    replies :
        (bytes : List ℕ) (v : Value) (id : String) (p : Pending) (w : Waiting) (log : Log)
        → parse bytes ≡ ok v
        → addressed r v ≡ some id
        → w id ≡ some p
        → Step
            (frame bytes)
            (opened w log)
            (opened (update id none w) ((p.reply, answered (verdict r v p.kind)) ∷ log))
    unclaimed :
        (bytes : List ℕ) (v : Value) (id : String) (w : Waiting) (log : Log)
        → parse bytes ≡ ok v
        → addressed r v ≡ some id
        → w id ≡ none
        → Step (frame bytes) (opened w log) (opened w log)
    unaddressed :
        (bytes : List ℕ) (v : Value) (w : Waiting) (log : Log)
        → parse bytes ≡ ok v
        → addressed r v ≡ none
        → Step (frame bytes) (opened w log) (opened w log)
    stops :
        (e : Event) (first out : Log) (w : Waiting) (log : Log)
        → Stops e first
        → Settles w out
        → Step e (opened w log) (stopped (out ++ (first ++ log)))
    late :
        (o : Outbound) (failure : Option TransportError) (log : Log)
        → Step (outbound o failure) (stopped log) (stopped ((o.reply, dropped) ∷ log))
    idle : (e : Event) (log : Log) → NoRequest e → Step e (stopped log) (stopped log)

  pub data Steps : List Event → Spec → Spec → Type 0 where
    done : (a : Spec) → Steps [] a a
    next :
        (e : Event) (es : List Event) (a b c : Spec)
        → Step e a b
        → Steps es b c
        → Steps (e ∷ es) a c
