-- ===== src/Transport/Dispatcher/Matching.antt =====
-- src/transport/dispatcher.rs: a step of the task against a step of its specification.
use mathlib.Core.Path.{fun_ext}
use mapepire_rs.Prelude.{
  ℕ, ◌≡◌, refl, ap, ap₂, sym, subst, ◌∙◌, String, true, Option, none, some, List, [], ◌++◌, arith,
  if◌then◌else◌, inl, inr, Result, ok, Result-cases, Option-cases,
}
use mapepire_rs.Protocol.Json.{Value}
use mapepire_rs.Protocol.Rendering.{Rendering}
use mapepire_rs.Protocol.Decode.{decode_value}
use mapepire_rs.Error.{Error}
use mapepire_rs.Transport.Dispatcher.Table.{Pending, Map, take_entry, left_after}
use mapepire_rs.Transport.Dispatcher.Routing.{found, addressed}
use mapepire_rs.Transport.Dispatcher.Keys.{
  waiting, HasKeysOnce, left_after-HasKeysOnce, waiting-left_after,
}
use mapepire_rs.Transport.Dispatcher.Spec.{
  Spec, opened, stopped, Log, replaced, verdict, Stops, Step, replies, unclaimed, unaddressed,
  stops,
}
use mapepire_rs.Transport.Dispatcher.Settled.{Settled, Settled-drain, Settles-waiting}
use mapepire_rs.Transport.Dispatcher.Stop.{pending-drain}
use mapepire_rs.Transport.Dispatcher.{
  Outbound, Event, frame, Dispatcher, settle, complete, value_id, on_value,
  drain_pending_with_error, drop_replaced, stop,
}

-- What the specification sees of a state.
unfoldable pub view : Dispatcher → Spec
view s = if s.running then opened (waiting s.pending) s.replies else stopped s.replies

pub view-running :
    (s : Dispatcher) → s.running ≡ true → view s ≡ opened (waiting s.pending) s.replies
unfolding view
view-running s on = rw (on) refl

some_eq : {A : Type 0} {a b : A} → some a ≡ some b → a ≡ b
some_eq h = cc

pub replaced-found :
    (t : Option (Pending × Map)) (log : Log) → drop_replaced t log ≡ replaced (found t) ++ log
replaced-found none log = refl
replaced-found (some (p, rest)) log = refl

abbrev pub pending_of : Outbound → Pending
pending_of o = record { reply = o.reply; kind = o.kind }

module _ (r : Rendering) (parse : List ℕ → Result Value String) where
  -- A step of the specification that matches a step of the code, which keeps the ids unique.
  unfoldable pub Matches : Event → Dispatcher → Dispatcher → Type 0
  Matches e s t = Step r parse e (view s) (view t) × HasKeysOnce t.pending

  -- A value completes the request of the id that it names.
  on_value-addressed :
      (v : Value) (id : String) (s : Dispatcher)
      → addressed r v ≡ some id
      → on_value r parse v s ≡ complete id (verdict r v) s
  unfolding on_value
  on_value-addressed v id s h = elim (Result-cases (decode_value r v)) [
    | inl (response, e) ↦
        rw (e, on_value)
          (ap₂ (λ i k. complete i k s) (some_eq (rw (e, addressed) at h))
            (fun_ext λ k. rw (e, verdict) refl))
    | inr (message, e) ↦
        let named : value_id v ≡ some id = rw (e, addressed) at h in
        rw (e, named, on_value) (ap (λ k. complete id k s) (fun_ext λ k. rw (e, verdict) refl))
  ]

  on_value-unaddressed :
      (v : Value) (s : Dispatcher) → addressed r v ≡ none → on_value r parse v s ≡ s
  unfolding on_value
  on_value-unaddressed v s h = ground arith

  pub seen :
      (e : Event) (s t : Dispatcher) (b : Spec)
      → s.running ≡ true
      → view t ≡ b
      → Step r parse e (opened (waiting s.pending) s.replies) b
      → Step r parse e (view s) (view t)
  seen e s t b on same h =
      subst (λ a. Step r parse e a (view t)) (sym (view-running s on))
        (subst (λ c. Step r parse e (opened (waiting s.pending) s.replies) c) (sym same) h)

  complete-Matches :
      (bytes : List ℕ) (v : Value) (id : String) (s : Dispatcher)
      → s.running ≡ true
      → HasKeysOnce s.pending
      → parse bytes ≡ ok v
      → addressed r v ≡ some id
      → Matches (frame bytes) s (complete id (verdict r v) s)
  unfolding complete Matches
  complete-Matches bytes v id s on keys q named = go (take_entry id s.pending) refl
    where
      go :
          (t : Option (Pending × Map))
          → take_entry id s.pending ≡ t
          → Matches (frame bytes) s (complete id (verdict r v) s)
      go none e =
          rw (e, complete)
            (
              seen (frame bytes) s s _ on (view-running s on)
                  (unclaimed bytes v id (waiting s.pending) s.replies q named (ap found e)),
              keys,
            )
      go (some (p, rest)) e =
          let gone : rest ≡ left_after (take_entry id s.pending) s.pending =
            ap (λ t. left_after t s.pending) (sym e) in
          let t : Dispatcher = settle p (verdict r v p.kind) (record s { pending = rest }) in
          rw (e, complete)
            (
              seen (frame bytes) s t _ on
                  (view-running t on
                    ∙ ap (λ w. opened w t.replies)
                        (ap waiting gone ∙ waiting-left_after id s.pending keys))
                  (replies bytes v id p (waiting s.pending) s.replies q named (ap found e)),
              subst HasKeysOnce (sym gone) (left_after-HasKeysOnce id s.pending keys),
            )

  pub stop-Matches :
      (e : Event) (first : Log) (s t : Dispatcher)
      → s.running ≡ true
      → HasKeysOnce s.pending
      → Stops r parse e first
      → Settled s.pending (first ++ s.replies) t.replies
      → t.pending ≡ []
      → Matches e s (stop t)
  unfolding Matches view Settled
  stop-Matches e first s t on keys halts (out, same, fails, counts) empty = (
    seen e s (stop t) (stopped (out ++ (first ++ s.replies))) on (ap stopped same) (
        stops e first out (waiting s.pending) s.replies halts
          (Settles-waiting s.pending out keys fails counts)),
    subst HasKeysOnce (sym empty) tt,
  )

  pub drain-Matches :
      (e : Event) (first : Log) (failure : Error) (s : Dispatcher)
      → s.running ≡ true
      → HasKeysOnce s.pending
      → Stops r parse e first
      → Matches e s
          (stop (drain_pending_with_error failure (record s { replies = first ++ s.replies })))
  drain-Matches e first failure s on keys halts =
      let told : Dispatcher = record s { replies = first ++ s.replies } in
      stop-Matches e first s (drain_pending_with_error failure told) on keys halts
        (Settled-drain failure told) (pending-drain failure told)

  pub value-Matches :
      (bytes : List ℕ) (v : Value) (s : Dispatcher)
      → s.running ≡ true
      → HasKeysOnce s.pending
      → parse bytes ≡ ok v
      → Matches (frame bytes) s (on_value r parse v s)
  unfolding Matches
  value-Matches bytes v s on keys q = elim (Option-cases (addressed r v)) [
    | inl none_named ↦ subst (Matches (frame bytes) s) (sym (on_value-unaddressed v s none_named)) (
      seen (frame bytes) s s _ on (view-running s on)
          (unaddressed bytes v (waiting s.pending) s.replies q none_named),
      keys,
    )
    | inr (id, named) ↦
        subst (Matches (frame bytes) s) (sym (on_value-addressed v id s named))
          (complete-Matches bytes v id s on keys q named)
  ]
