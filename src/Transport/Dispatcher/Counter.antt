-- ===== src/Transport/Dispatcher/Counter.antt =====
-- src/transport/dispatcher.rs: `in_flight`, the wrapping u32 that the pool's router reads, and the
-- entries of `pending`, while the dispatcher is its only writer.
use mapepire_rs.Prelude.{
  ℕ, ◌+◌, ◌%◌, ◌≡◌, refl, ap, String, true, Option, none, some, List, [], ◌∷◌, arith, length,
  u32_mod, add_u32, sub_u32, Result, err,
}
use mapepire_rs.Protocol.Json.{Value}
use mapepire_rs.Protocol.Rendering.{Rendering}
use mapepire_rs.Error.{Error, transport, protocol, json, TransportError, closed}
use mapepire_rs.Transport.Dispatcher.Table.{Pending, Map, take_entry, insert_entry, left_after}
use mapepire_rs.Transport.Dispatcher.Cases.{step_cases}
use mapepire_rs.Transport.Dispatcher.{
  Event, outbound, frame, broken, peer_closed, Outbound, Dispatcher, settle, dropped, settle_all,
  drain_pending_with_error, drain_pending, on_outbound, on_frame, react, step,
}

abbrev pub InStep : Dispatcher → Type 0
InStep s = s.in_flight ≡ length s.pending % u32_mod

-- A request that is written to the socket has an id that no pending request has.
abbrev pub IsFresh : Event → Dispatcher → Type 0
IsFresh (outbound o none) s = take_entry o.id s.pending ≡ none
IsFresh _ s = Unit {0}

abbrev pub one_taken : Option (Pending × Map) → ℕ
one_taken none = 0
one_taken (some e) = 1

pub length-take_entry :
    (id : String) (m : Map)
    → length m ≡ one_taken (take_entry id m) + length (left_after (take_entry id m) m)
unfolding take_entry
length-take_entry id [] = omega arith
length-take_entry id ((j, p) ∷ m) = ground (arith, length-take_entry id m)

in_flight-settle_all :
    (m : Map) (n : ℕ) (s : Dispatcher)
    → s.in_flight ≡ (length m + n) % u32_mod
    → (settle_all m s).in_flight ≡ n % u32_mod
unfolding settle_all sub_u32
in_flight-settle_all [] n s h = omega arith
in_flight-settle_all ((id, p) ∷ m) n s h =
    in_flight-settle_all m n (settle p (err (transport closed)) s) (omega arith)

-- A drain takes the counter back to zero.
in_flight-drain :
    (e : Error) (s : Dispatcher) → InStep s → (drain_pending_with_error e s).in_flight ≡ 0
unfolding drain_pending_with_error sub_u32
in_flight-drain e s h = go s.pending refl
  where
    go : (m : Map) → s.pending ≡ m → (drain_pending_with_error e s).in_flight ≡ 0
    go [] q = rw (q, drain_pending_with_error) (omega (arith, ap length q))
    go ((id, p) ∷ m) q =
        rw (q, drain_pending_with_error)
          (in_flight-settle_all m 0 (settle p (err e) (record s { pending = [] }))
            (omega (arith, ap length q)))

module _ (r : Rendering) (parse : List ℕ → Result Value String) where
  -- A failed write, a transport error and the end of the stream stop the task with the counter at
  -- zero; so does a frame that is no JSON.
  pub close_resets_counter :
      (s : Dispatcher) (o : Outbound) (e : TransportError) (bytes : List ℕ) (message : String)
      → s.running ≡ true
      → InStep s
      → parse bytes ≡ err message
      → ((step r parse (outbound o (some e)) s).in_flight ≡ 0)
        × ((step r parse (broken e) s).in_flight ≡ 0)
        × ((step r parse peer_closed s).in_flight ≡ 0)
        × ((step r parse (frame bytes) s).in_flight ≡ 0)
  unfolding on_frame
  close_resets_counter s o e bytes message on h bad = (
    at (outbound o (some e))
        (unfold react on_outbound drain_pending in in_flight-drain (transport closed) _ h),
    at (broken e) (unfold react in in_flight-drain (transport e) s h),
    at peer_closed (unfold react drain_pending in in_flight-drain (transport closed) s h),
    at (frame bytes) (unfold react in on_frame-malformed),
  )
    where
      on_frame-malformed : (on_frame r parse bytes s).in_flight ≡ 0
      on_frame-malformed = rw (bad, on_frame) (in_flight-drain (protocol (json message)) s h)

      at : (x : Event) → (react r parse x s).in_flight ≡ 0 → (step r parse x s).in_flight ≡ 0
      at x q = step_cases r parse (λ t. t.in_flight ≡ 0) x s (λ _. q) (λ off. absurd (cc))

-- A request that reuses a pending id replaces the entry and drops its caller: the counter rises, the
-- map does not grow, and the two stay apart.
pub duplicate_id_leaks :
    (o : Outbound) (s : Dispatcher) (old : Pending) (rest : Map)
    → InStep s
    → take_entry o.id s.pending ≡ some (old, rest)
    → let t = on_outbound o none s in
      (length t.pending ≡ length s.pending)
      × (t.in_flight ≡ (length t.pending + 1) % u32_mod)
      × (t.replies ≡ (old.reply, dropped) ∷ s.replies)
unfolding on_outbound insert_entry add_u32
duplicate_id_leaks o s old rest h q = (
  ground (arith, length-take_entry o.id s.pending),
  ground (arith, length-take_entry o.id s.pending),
  rw (q),
)
