-- ===== src/Transport/Dispatcher/Replies.antt =====
-- src/transport/dispatcher.rs: the count of the replies that `run`, its drains and the senders dropped
-- with the map or with the queue give.
use mapepire_rs.Prelude.{
  ap, ℕ, ◌+◌, ◌≡◌, refl, String, ◌==◌, Option, none, some, List, [], ◌∷◌, arith, if◌then◌else◌,
  Result, err, ◌∙◌,
}
use mapepire_rs.Protocol.Json.{Value}
use mapepire_rs.Protocol.Response.{Response}
use mapepire_rs.Protocol.Rendering.{Rendering}
use mapepire_rs.Error.{Error, transport, TransportError, closed, protocol, json}
use mapepire_rs.Transport.Kinds.{PendingKind}
use mapepire_rs.Transport.Dispatcher.Table.{Pending, Map, take_entry, slots, left_after}
use mapepire_rs.Transport.Dispatcher.Cases.{on_frame_cases, step_cases}
use mapepire_rs.Transport.Dispatcher.{
  Reply, answered, Outbound, give, Event, outbound, handles_dropped, frame, broken, peer_closed,
  aborted, Dispatcher, settle, settle_all, drain_pending_with_error, drain_pending, drop_all,
  drop_pending, on_outbound, complete, on_value, on_frame, react, after_stop, step, run,
}

abbrev hit : ℕ → ℕ → ℕ
hit k n = if n == k then 1 else 0

abbrev pub count : ℕ → List ℕ → ℕ
count k [] = 0
count k (n ∷ ns) = hit k n + count k ns

-- How often a caller has had a reply.
abbrev pub replied : ℕ → List (ℕ × Reply) → ℕ
replied k [] = 0
replied k ((n, r) ∷ out) = hit k n + replied k out

-- A request that waits for its reply, or that has it.
abbrev pub held : ℕ → Dispatcher → ℕ
held k s = count k (slots s.pending) + replied k s.replies

-- How often a caller is named by the requests among the events.
abbrev pub submitted : ℕ → List Event → ℕ
submitted k [] = 0
submitted k (outbound o failure ∷ es) = hit k o.reply + submitted k es
submitted k (handles_dropped ∷ es) = submitted k es
submitted k (frame bytes ∷ es) = submitted k es
submitted k (broken e ∷ es) = submitted k es
submitted k (peer_closed ∷ es) = submitted k es
submitted k (aborted ∷ es) = submitted k es

abbrev taken : ℕ → Option (Pending × Map) → ℕ
taken k none = 0
taken k (some (p, rest)) = hit k p.reply

count-take_entry :
    (k : ℕ) (id : String) (m : Map)
    → count k (slots m)
      ≡ taken k (take_entry id m) + count k (slots (left_after (take_entry id m) m))
unfolding take_entry
count-take_entry k id [] = omega arith
count-take_entry k id ((j, p) ∷ m) = ground (arith, count-take_entry k id m)

held-settle_all :
    (k : ℕ) (m : Map) (s : Dispatcher) → held k (settle_all m s) ≡ held k s + count k (slots m)
unfolding settle_all
held-settle_all k [] s = omega arith
held-settle_all k ((id, p) ∷ m) s =
    held-settle_all k m (settle p (err (transport closed)) s) ∙ omega arith

replied-drop_all :
    (k : ℕ) (m : Map) (out : List (ℕ × Reply))
    → replied k (drop_all m out) ≡ replied k out + count k (slots m)
unfolding drop_all
replied-drop_all k [] out = omega arith
replied-drop_all k ((id, p) ∷ m) out =
    replied-drop_all k m ((p.reply, Reply.dropped) ∷ out) ∙ omega arith

held-drain : (k : ℕ) (e : Error) (s : Dispatcher) → held k (drain_pending_with_error e s) ≡ held k s
unfolding drain_pending_with_error
held-drain k e s = go s.pending refl
  where
    go : (m : Map) → s.pending ≡ m → held k (drain_pending_with_error e s) ≡ held k s
    go [] q = rw (q, drain_pending_with_error) (omega (arith, ap (λ m. count k (slots m)) q))
    go ((id, p) ∷ m) q =
        rw (q, drain_pending_with_error)
          (held-settle_all k m (settle p (err e) (record s { pending = [] }))
            ∙ omega (arith, ap (λ m. count k (slots m)) q))

held-drop_pending : (k : ℕ) (s : Dispatcher) → held k (drop_pending s) ≡ held k s
unfolding drop_pending
held-drop_pending k s = omega (arith, replied-drop_all k s.pending s.replies)

held-on_outbound :
    (k : ℕ) (o : Outbound) (failure : Option TransportError) (s : Dispatcher)
    → held k (on_outbound o failure s) ≡ hit k o.reply + held k s
unfolding on_outbound drain_pending
held-on_outbound k o (some e) s =
    held-drain k (transport closed) (give o.reply (answered (err (transport e))) s) ∙ omega arith
held-on_outbound k o none s = ground (arith, count-take_entry k o.id s.pending)

held-complete :
    (k : ℕ) (id : String) (make : PendingKind → Result Response Error) (s : Dispatcher)
    → held k (complete id make s) ≡ held k s
unfolding complete
held-complete k id make s = ground (arith, count-take_entry k id s.pending)

module _ (r : Rendering) (parse : List ℕ → Result Value String) where
  held-on_frame :
      (k : ℕ) (bytes : List ℕ) (s : Dispatcher) → held k (on_frame r parse bytes s) ≡ held k s
  unfolding on_frame on_value
  held-on_frame k bytes s =
      on_frame_cases r parse (λ t. held k t ≡ held k s) bytes s refl
        (λ id make. held-complete k id make s) (λ message. held-drain k (protocol (json message)) s)

  held-react :
      (k : ℕ) (e : Event) (s : Dispatcher)
      → held k (react r parse e s) ≡ submitted k (e ∷ []) + held k s
  unfolding react drain_pending
  held-react k (outbound o failure) s = omega (arith, held-on_outbound k o failure s)
  held-react k handles_dropped s = omega (arith, held-drop_pending k s)
  held-react k (frame bytes) s = omega (arith, held-on_frame k bytes s)
  held-react k (broken e) s = omega (arith, held-drain k (transport e) s)
  held-react k peer_closed s = omega (arith, held-drain k (transport closed) s)
  held-react k aborted s = omega (arith, held-drop_pending k s)

  held-after_stop :
      (k : ℕ) (e : Event) (s : Dispatcher)
      → held k (after_stop r parse e s) ≡ submitted k (e ∷ []) + held k s
  unfolding after_stop
  held-after_stop k (outbound o failure) s = omega arith
  held-after_stop k handles_dropped s = omega arith
  held-after_stop k (frame bytes) s = omega arith
  held-after_stop k (broken e) s = omega arith
  held-after_stop k peer_closed s = omega arith
  held-after_stop k aborted s = omega arith

  held-step :
      (k : ℕ) (e : Event) (s : Dispatcher)
      → held k (step r parse e s) ≡ submitted k (e ∷ []) + held k s
  unfolding step
  held-step k e s =
      step_cases r parse (λ t. held k t ≡ submitted k (e ∷ []) + held k s) e s
        (λ on. held-react k e s) (λ off. held-after_stop k e s)

  submitted-cons :
      (k : ℕ) (e : Event) (es : List Event)
      → submitted k (e ∷ es) ≡ submitted k (e ∷ []) + submitted k es
  submitted-cons k (outbound o failure) es = omega arith
  submitted-cons k handles_dropped es = omega arith
  submitted-cons k (frame bytes) es = omega arith
  submitted-cons k (broken e) es = omega arith
  submitted-cons k peer_closed es = omega arith
  submitted-cons k aborted es = omega arith

  pub held-run :
      (k : ℕ) (es : List Event) (s : Dispatcher)
      → held k (run r parse es s) ≡ submitted k es + held k s
  unfolding run
  held-run k [] s = omega arith
  held-run k (e ∷ es) s =
      held-run k es (step r parse e s) ∙ omega (arith, held-step k e s, submitted-cons k e es)
