-- ===== src/Transport/Dispatcher/Shared.antt =====
-- src/transport/dispatcher.rs and src/pool/reserved.rs: `in_flight` with both its writers, the
-- dispatcher task and the `Reserved` that holds the connection.
use mapepire_rs.Prelude.{
  ℕ, ◌+◌, ◌-◌, ◌%◌, ◌<◌, ◌≡◌, refl, String, true, false, none, some, List, [], ◌∷◌, arith, length,
  u32_mod, u32_max, add_u32, sub_u32, Result,
}
use mapepire_rs.Protocol.Json.{Value}
use mapepire_rs.Protocol.Response.{Response}
use mapepire_rs.Protocol.Rendering.{Rendering}
use mapepire_rs.Error.{Error}
use mapepire_rs.Transport.Kinds.{PendingKind}
use mapepire_rs.Transport.Dispatcher.Table.{insert_entry}
use mapepire_rs.Transport.Dispatcher.Cases.{on_frame_cases, step_cases}
use mapepire_rs.Transport.Dispatcher.Counter.{IsFresh, length-take_entry}
use mapepire_rs.Transport.Dispatcher.{
  Event, outbound, handles_dropped, frame, broken, peer_closed, aborted, Dispatcher, spawn,
  drain_pending, drop_pending, on_outbound, complete, react, after_stop, step,
}

-- An access to the counter: an event of the task, the mark of `Reserved::new`, or the zero that
-- `Drop for Reserved` stores.
pub data Access : Type 0 where
  sees : Event → Access
  marks frees : Access

abbrev pub store : ℕ → Dispatcher → Dispatcher
store n s = record s { in_flight = n }

-- How far a counter that now is `n` is ahead of the number of pending requests.
abbrev ahead : ℕ → Dispatcher → ℕ
ahead n s = (n + u32_mod - length s.pending % u32_mod) % u32_mod

module _ (r : Rendering) (parse : List ℕ → Result Value String) where
  unfoldable pub access : Access → Dispatcher → Dispatcher
  unfolding step
  access (sees e) s = step r parse e s
  access marks s = store u32_max s
  access frees s = store 0 s

  abbrev pub accesses : List Access → Dispatcher → Dispatcher
  accesses [] s = s
  accesses (a ∷ as') s = accesses as' (access a s)

  -- The last store, less the requests that were pending then; `k` when there is none.
  abbrev pub shift : List Access → Dispatcher → ℕ → ℕ
  shift [] s k = k
  shift (sees e ∷ as') s k = shift as' (access (sees e) s) k
  shift (marks ∷ as') s k = shift as' (access marks s) (ahead u32_max s)
  shift (frees ∷ as') s k = shift as' (access frees s) (ahead 0 s)

  abbrev IsFreshAccess : Access → Dispatcher → Type 0
  IsFreshAccess (sees e) s = IsFresh e s
  IsFreshAccess _ s = Unit {0}

  -- Along the accesses, every request that is written has a fresh id.
  abbrev pub AreFresh : List Access → Dispatcher → Type 0
  AreFresh [] s = Unit {0}
  AreFresh (a ∷ as') s = IsFreshAccess a s × AreFresh as' (access a s)

abbrev Shifted : ℕ → Dispatcher → Type 0
Shifted k s = s.in_flight ≡ (k + length s.pending) % u32_mod

abbrev Tracks : ℕ → Dispatcher → Type 0
Tracks k s = s.running ≡ true → Shifted k s

complete-Shifted :
    (k : ℕ) (id : String) (make : PendingKind → Result Response Error) (s : Dispatcher)
    → Shifted k s
    → Shifted k (complete id make s)
unfolding complete sub_u32
complete-Shifted k id make s h = ground (arith, length-take_entry id s.pending)

store-Shifted : (n : ℕ) (s : Dispatcher) → n < u32_mod → Shifted (ahead n s) (store n s)
store-Shifted n s h = omega arith

module _ (r : Rendering) (parse : List ℕ → Result Value String) where
  react-Tracks :
      (k : ℕ) (e : Event) (s : Dispatcher)
      → IsFresh e s
      → Shifted k s
      → Tracks k (react r parse e s)
  unfolding react drain_pending drop_pending on_outbound insert_entry add_u32
  react-Tracks k (outbound o none) s f h on = rw (f) (ground arith)
  react-Tracks k (outbound o (some e)) s f h on = cc
  react-Tracks k handles_dropped s f h on = cc
  react-Tracks k (frame bytes) s f h on =
      (on_frame_cases r parse (Tracks k) bytes s (λ _. h)
          (λ id make _. complete-Shifted k id make s h) (λ message on'. cc))
        on
  react-Tracks k (broken e) s f h on = cc
  react-Tracks k peer_closed s f h on = cc
  react-Tracks k aborted s f h on = cc

  after_stop-Tracks :
      (k : ℕ) (e : Event) (s : Dispatcher) → s.running ≡ false → Tracks k (after_stop r parse e s)
  unfolding after_stop
  after_stop-Tracks k (outbound o f) s off on = cc
  after_stop-Tracks k _ s off on = cc

  accesses-Tracks :
      (as' : List Access) (s : Dispatcher) (k : ℕ)
      → AreFresh r parse as' s
      → Tracks k s
      → Tracks (shift r parse as' s k) (accesses r parse as' s)
  unfolding access
  accesses-Tracks [] s k f h = h
  accesses-Tracks (sees e ∷ as') s k f h = accesses-Tracks as' (step r parse e s) k f.1 (
      step_cases r parse (Tracks k) e s (λ on. react-Tracks k e s f.0 (h on))
        (after_stop-Tracks k e s))
  accesses-Tracks (marks ∷ as') s k f h =
      accesses-Tracks as' (store u32_max s) (ahead u32_max s) f.1
        (λ on. store-Shifted u32_max s (omega arith))
  accesses-Tracks (frees ∷ as') s k f h =
      accesses-Tracks as' (store 0 s) (ahead 0 s) f.1 (λ on. store-Shifted 0 s (omega arith))

  -- While the task runs, and if no request is written under an id that is still pending, the shared
  -- counter is, modulo 2^32, the number of pending requests plus the shift that the last store of a
  -- `Reserved` left: what it stored less the requests that were pending then, and zero before any.
  pub in_flight_counts_pending :
      (as' : List Access)
      → AreFresh r parse as' spawn
      → (accesses r parse as' spawn).running ≡ true
      → (accesses r parse as' spawn).in_flight
        ≡ (shift r parse as' spawn 0 + length (accesses r parse as' spawn).pending) % u32_mod
  unfolding spawn
  in_flight_counts_pending as' f = accesses-Tracks as' spawn 0 f (λ _. refl)
