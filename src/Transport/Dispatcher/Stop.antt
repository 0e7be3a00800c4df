-- ===== src/Transport/Dispatcher/Stop.antt =====
-- src/transport/dispatcher.rs: the state in which the loop returns.
use mapepire_rs.Prelude.{
  ap, ℕ, ◌≡◌, refl, String, true, false, none, some, List, [], ◌∷◌, arith, Result, err, ◌∙◌, ◌⊎◌,
  inl, inr,
}
use mapepire_rs.Protocol.Json.{Value}
use mapepire_rs.Protocol.Response.{Response}
use mapepire_rs.Protocol.Rendering.{Rendering}
use mapepire_rs.Error.{Error, transport, closed, protocol, json}
use mapepire_rs.Transport.Kinds.{PendingKind}
use mapepire_rs.Transport.Dispatcher.Table.{Map, slots}
use mapepire_rs.Transport.Dispatcher.Replies.{replied, submitted, count, held-run}
use mapepire_rs.Transport.Dispatcher.Cases.{on_frame_cases, step_cases}
use mapepire_rs.Transport.Dispatcher.{
  answered, give, Event, outbound, handles_dropped, frame, broken, peer_closed, aborted, Dispatcher,
  spawn, settle, settle_all, drain_pending_with_error, drain_pending, drop_pending, on_outbound,
  complete, react, after_stop, step, run,
}

-- A task that has returned has no request left in its map.
abbrev IsSettled : Dispatcher → Type 0
IsSettled s = (s.running ≡ true) ⊎ (s.pending ≡ [])

pending-settle_all : (m : Map) (s : Dispatcher) → (settle_all m s).pending ≡ s.pending
unfolding settle_all
pending-settle_all [] s = refl
pending-settle_all ((id, p) ∷ m) s = pending-settle_all m (settle p (err (transport closed)) s)

pub pending-drain : (e : Error) (s : Dispatcher) → (drain_pending_with_error e s).pending ≡ []
unfolding drain_pending_with_error
pending-drain e s = go s.pending refl
  where
    go : (m : Map) → s.pending ≡ m → (drain_pending_with_error e s).pending ≡ []
    go [] q = rw (q, drain_pending_with_error) q
    go ((id, p) ∷ m) q =
        rw (q, drain_pending_with_error)
          (pending-settle_all m (settle p (err e) (record s { pending = [] })))

pub running-complete :
    (id : String) (make : PendingKind → Result Response Error) (s : Dispatcher)
    → (complete id make s).running ≡ s.running
unfolding complete
running-complete id make s = ground arith

module _ (r : Rendering) (parse : List ℕ → Result Value String) where
  react-IsSettled : (e : Event) (s : Dispatcher) → s.running ≡ true → IsSettled (react r parse e s)
  unfolding react drain_pending drop_pending on_outbound
  react-IsSettled (outbound o none) s on = inl on
  react-IsSettled (outbound o (some e)) s on =
      inr (pending-drain (transport closed) (give o.reply (answered (err (transport e))) s))
  react-IsSettled handles_dropped s on = inr refl
  react-IsSettled (frame bytes) s on =
      on_frame_cases r parse IsSettled bytes s (inl on)
        (λ id make. inl (running-complete id make s ∙ on))
        (λ message. inr (pending-drain (protocol (json message)) s))
  react-IsSettled (broken e) s on = inr (pending-drain (transport e) s)
  react-IsSettled peer_closed s on = inr (pending-drain (transport closed) s)
  react-IsSettled aborted s on = inr refl

  after_stop-IsSettled :
      (e : Event) (s : Dispatcher) → IsSettled s → IsSettled (after_stop r parse e s)
  unfolding after_stop
  after_stop-IsSettled (outbound o f) s h = h
  after_stop-IsSettled _ s h = h

  step-IsSettled : (e : Event) (s : Dispatcher) → IsSettled s → IsSettled (step r parse e s)
  step-IsSettled e s h =
      step_cases r parse IsSettled e s (react-IsSettled e s) (λ off. after_stop-IsSettled e s h)

  pub run-IsSettled :
      (es : List Event) (s : Dispatcher) → IsSettled s → IsSettled (run r parse es s)
  unfolding run
  run-IsSettled [] s h = h
  run-IsSettled (e ∷ es) s h = run-IsSettled es (step r parse e s) (step-IsSettled e s h)

  -- No caller hangs: once the task has returned, by whatever events, each caller has been answered
  -- exactly as often as requests were handed over for it, and no request is left in the map.
  pub every_caller_answered :
      (k : ℕ) (es : List Event)
      → (run r parse es spawn).running ≡ false
      → (replied k (run r parse es spawn).replies ≡ submitted k es)
        × ((run r parse es spawn).pending ≡ [])
  unfolding spawn
  every_caller_answered k es off = elim (run-IsSettled es spawn (inl refl)) [
    | inl on ↦ absurd (cc)
    | inr empty ↦
        (omega (arith, held-run r parse k es spawn, ap (λ m. count k (slots m)) empty), empty)
  ]
