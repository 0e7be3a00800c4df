-- ===== src/Transport/Dispatcher/Refinement.antt =====
-- src/transport/dispatcher.rs: every run of the task is a run of its specification.
use mapepire_rs.Prelude.{
  ℕ, ◌≡◌, refl, ap₂, sym, subst, ◌∙◌, String, true, false, none, some, List, [], ◌∷◌, inl, inr,
  Result, Result-cases,
}
use mapepire_rs.Protocol.Json.{Value}
use mapepire_rs.Protocol.Rendering.{Rendering}
use mapepire_rs.Error.{transport, protocol, json, closed}
use mapepire_rs.Transport.Dispatcher.Table.{take_entry}
use mapepire_rs.Transport.Dispatcher.Keys.{
  waiting, HasKeysOnce, insert_entry-HasKeysOnce, waiting-insert_entry,
}
use mapepire_rs.Transport.Dispatcher.Spec.{
  opened, stopped, write_failed, no_json, broke, peer_left, handles_left, task_aborted, NoRequest,
  Step, written, late, idle, Steps, done, next,
}
use mapepire_rs.Transport.Dispatcher.Settled.{Settled-drop_pending}
use mapepire_rs.Transport.Dispatcher.Cases.{step_cases}
use mapepire_rs.Transport.Dispatcher.{
  dropped, Event, outbound, handles_dropped, frame, broken, peer_closed, aborted, Dispatcher, spawn,
  on_outbound, on_frame, drain_pending, drop_pending, react, after_stop, step, run, give,
}
use mapepire_rs.Transport.Dispatcher.Matching.{
  view, view-running, replaced-found, pending_of, Matches, seen, stop-Matches, drain-Matches,
  value-Matches,
}

module _ (r : Rendering) (parse : List ℕ → Result Value String) where
  react-Matches :
      (e : Event) (s : Dispatcher)
      → s.running ≡ true
      → HasKeysOnce s.pending
      → Matches r parse e s (react r parse e s)
  unfolding react on_outbound drain_pending drop_pending Matches
  react-Matches (outbound o (some e)) s on keys =
      drain-Matches r parse (outbound o (some e)) _ (transport closed) s on keys (write_failed o e)
  react-Matches (outbound o none) s on keys = (
    seen r parse (outbound o none) s (on_outbound o none s) _ on
        (view-running (on_outbound o none s) on
          ∙ ap₂ opened (waiting-insert_entry o.id (pending_of o) s.pending keys)
              (replaced-found (take_entry o.id s.pending) s.replies))
        (written o (waiting s.pending) s.replies),
    insert_entry-HasKeysOnce o.id (pending_of o) s.pending keys,
  )
  react-Matches handles_dropped s on keys =
      stop-Matches r parse handles_dropped [] s (drop_pending s) on keys handles_left
        (Settled-drop_pending s) refl
  react-Matches (frame bytes) s on keys = elim (Result-cases (parse bytes)) [
    | inl (v, q) ↦ rw (q, on_frame) (value-Matches r parse bytes v s on keys q)
    | inr (message, q) ↦
        rw (q, on_frame)
          (drain-Matches r parse (frame bytes) [] (protocol (json message)) s on keys
            (no_json bytes message q))
  ]
  react-Matches (broken e) s on keys =
      drain-Matches r parse (broken e) [] (transport e) s on keys (broke e)
  react-Matches peer_closed s on keys =
      drain-Matches r parse peer_closed [] (transport closed) s on keys peer_left
  react-Matches aborted s on keys =
      stop-Matches r parse aborted [] s (drop_pending s) on keys task_aborted
        (Settled-drop_pending s) refl

  view-stopped : (s : Dispatcher) → s.running ≡ false → view s ≡ stopped s.replies
  unfolding view
  view-stopped s off = rw (off) refl

  rest :
      (e : Event) (s : Dispatcher)
      → s.running ≡ false
      → NoRequest e
      → Step r parse e (view s) (view s)
  rest e s off quiet =
      subst (λ a. Step r parse e a a) (sym (view-stopped s off)) (idle e s.replies quiet)

  after_stop-Matches :
      (e : Event) (s : Dispatcher)
      → s.running ≡ false
      → HasKeysOnce s.pending
      → Matches r parse e s (after_stop r parse e s)
  unfolding after_stop Matches
  after_stop-Matches (outbound o failure) s off keys = (
    subst (λ a. Step r parse (outbound o failure) a (view (give o.reply dropped s)))
        (sym (view-stopped s off))
        (subst (λ a. Step r parse (outbound o failure) (stopped s.replies) a)
          (sym (view-stopped (give o.reply dropped s) off)) (late o failure s.replies)),
    keys,
  )
  after_stop-Matches handles_dropped s off keys = (rest handles_dropped s off tt, keys)
  after_stop-Matches (frame bytes) s off keys = (rest (frame bytes) s off tt, keys)
  after_stop-Matches (broken e) s off keys = (rest (broken e) s off tt, keys)
  after_stop-Matches peer_closed s off keys = (rest peer_closed s off tt, keys)
  after_stop-Matches aborted s off keys = (rest aborted s off tt, keys)

  step-Matches :
      (e : Event) (s : Dispatcher) → HasKeysOnce s.pending → Matches r parse e s (step r parse e s)
  step-Matches e s keys =
      step_cases r parse (Matches r parse e s) e s (λ on. react-Matches e s on keys)
        (λ off. after_stop-Matches e s off keys)

  -- From a state whose map holds each id once, every run of the task is a run of its
  -- specification, over the same events and with the same replies, and ends in such a state.
  pub run_refines :
      (es : List Event) (s : Dispatcher)
      → HasKeysOnce s.pending
      → Steps r parse es (view s) (view (run r parse es s)) × HasKeysOnce (run r parse es s).pending
  unfolding run Matches
  run_refines [] s keys = (done (view s), keys)
  run_refines (e ∷ es) s keys =
      let first = step-Matches e s keys in
      let later = run_refines es (step r parse e s) first.1 in
      (next e es (view s) _ _ first.0 later.0, later.1)

  -- From its start, every run of the task is a run of its specification from the connection on
  -- which nobody waits.
  pub run_spawn_refines :
      (es : List Event) → Steps r parse es (opened (λ _. none) []) (view (run r parse es spawn))
  unfolding spawn view take_entry
  run_spawn_refines es = (run_refines es spawn tt).0
