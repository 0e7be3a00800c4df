-- ===== src/Tests/Connection.antt =====
-- Instances for src/transport/dispatcher.rs.
use mapepire_rs.Prelude.{
  ◌+◌, ◌≡◌, ◌≢◌, refl, ap, sym, ◌∙◌, String, Bool, true, false, Option, none, some, List, [], ◌∷◌,
  ◌++◌, head?, length, ok, u32_mod, ◌%◌,
}
use mapepire_rs.Prelude.Text.{str_eq}
use mapepire_rs.Protocol.Json.{object, contains_key, get_bool, get, get_str}
use mapepire_rs.Protocol.Response.{pong}
use mapepire_rs.Protocol.Decode.{decode_value}
use mapepire_rs.Transport.Kinds.{PendingKind, ping, set_config, request_id}
use mapepire_rs.Transport.Kinds
use mapepire_rs.Transport.Dispatcher.{
  Outbound, outbound, frame, peer_closed, Dispatcher, spawn, answered, run, Event,
}
use mapepire_rs.Transport.Dispatcher.Table.{take_entry}
use mapepire_rs.Transport.Dispatcher.Routing.{AllSpare, addressed, reply_reaches_caller}
use mapepire_rs.Transport.Dispatcher.Replies.{replied}
use mapepire_rs.Transport.Dispatcher.Stop.{every_caller_answered}
use mapepire_rs.Transport.Dispatcher.Shared.{
  Access, sees, marks, access, accesses, in_flight_counts_pending,
}
use mapepire_rs.Tests.{plain, ack, parse_sample}

abbrev first : Outbound
first = record { id = "a-0"; reply = 7; kind = ping }

abbrev second : Outbound
second = record { id = "a-1"; reply = 8; kind = set_config }

decoded : decode_value plain (object (ack "a-0")) ≡ ok (pong "a-0")
unfolding decode_value contains_key get_bool get get_str
decoded = refl

second_addressed : addressed plain (object (ack "a-1")) ≡ some "a-1"
unfolding decode_value contains_key get_bool get get_str Kinds.response_id
second_addressed = refl

is_first : Option String → Bool
is_first none = false
is_first (some id) = str_eq id "a-0"

abbrev id_0 : Option String
id_0 = some "a-0"

abbrev id_1 : Option String
id_1 = some "a-1"

differ : id_1 ≢ id_0
unfolding is_first
differ e = let q : false ≡ true = ap is_first e in absurd (cc)

spared : AllSpare plain parse_sample "a-0" (outbound second none ∷ frame (2 ∷ []) ∷ [])
spared = (refl, ((object (ack "a-1"), refl, λ e. differ (sym second_addressed ∙ e)), tt))

reply_reaches_caller_example :
    head?
      (run plain parse_sample
        (outbound first none
          ∷ ((outbound second none ∷ frame (2 ∷ []) ∷ []) ++ frame (1 ∷ []) ∷ []))
        spawn).replies
    ≡ some (7, answered (ok (pong "a-0")))
unfolding spawn Kinds.remap_response Kinds.response_id
reply_reaches_caller_example =
    reply_reaches_caller plain parse_sample first (outbound second none ∷ frame (2 ∷ []) ∷ [])
      (1 ∷ []) (object (ack "a-0")) (pong "a-0") spawn refl spared refl decoded refl

abbrev closing : List Event
closing = outbound first none ∷ outbound second none ∷ frame (2 ∷ []) ∷ peer_closed ∷ []

every_caller_answered_example :
    (replied 7 (run plain parse_sample closing spawn).replies ≡ 1)
    × ((run plain parse_sample closing spawn).pending ≡ [])
unfolding run spawn decode_value contains_key get_bool get get_str Kinds.response_id
    Kinds.remap_response take_entry
every_caller_answered_example = every_caller_answered plain parse_sample 7 closing refl

-- A request is pending when the connection is reserved, and is answered later.
abbrev reserving : List Access
reserving =
    sees (outbound first none) ∷ marks ∷ sees (outbound second none) ∷ sees (frame (1 ∷ [])) ∷ []

in_flight_counts_pending_example :
    (accesses plain parse_sample reserving spawn).in_flight
    ≡ (4294967294 + length (accesses plain parse_sample reserving spawn).pending) % u32_mod
unfolding spawn access decode_value contains_key get_bool get get_str Kinds.response_id
    Kinds.remap_response take_entry
in_flight_counts_pending_example =
    in_flight_counts_pending plain parse_sample reserving (refl, (tt, (refl, (tt, tt)))) refl

abbrev one_open : Dispatcher
one_open = record {
  running = true;
  pending = ("a-0", record { reply = 7; kind = ping }) ∷ [];
  in_flight = 1;
  replies = [];
}
