-- ===== src/Transport/Dispatcher/Routing.antt =====
-- src/transport/dispatcher.rs: which caller a response reaches.
use mapepire_rs.Prelude.{
  ℕ, ◌≡◌, ◌≢◌, refl, ap, ◌∙◌, String, true, false, Option, none, some, List, [], ◌∷◌, ◌++◌, arith,
  head?, Result, ok, err, inl, inr, Bool-cases, Option-cases,
}
use mapepire_rs.Prelude.Text.{str_eq, str_eq_refl, str_eq_iff_true}
use text.Mathlib.TextEquality.{eq_iff}
use mapepire_rs.Protocol.Json.{Value}
use mapepire_rs.Protocol.Response.{Response}
use mapepire_rs.Protocol.Rendering.{Rendering}
use mapepire_rs.Protocol.Decode.{decode_value}
use mapepire_rs.Error.{Error, protocol}
use mapepire_rs.Transport.Kinds.{PendingKind, remap_response, response_id}
use mapepire_rs.Transport.Dispatcher.Table.{Pending, Map, take_entry, insert_entry, left_after}
use mapepire_rs.Transport.Dispatcher.Stop.{running-complete}
use mapepire_rs.Transport.Dispatcher.{
  Event, outbound, handles_dropped, frame, broken, peer_closed, aborted, Outbound, Dispatcher,
  answered, on_outbound, complete, value_id, protocol_decode_error, on_value, on_frame, react, step,
  run,
}

-- The request that waits under an id.
abbrev pub found : Option (Pending × Map) → Option Pending
found none = none
found (some (p, rest)) = some p

abbrev pub find : String → Map → Option Pending
find id m = found (take_entry id m)

pub find-left_after :
    (id j : String) (m : Map)
    → str_eq j id ≡ false
    → find id (left_after (take_entry j m) m) ≡ find id m
unfolding take_entry
find-left_after id j [] h = refl
find-left_after id j ((k, p) ∷ m) h =
    ground (arith, eq_iff j id, eq_iff k j, eq_iff k id, find-left_after id j m)

find-complete :
    (id j : String) (make : PendingKind → Result Response Error) (s : Dispatcher)
    → str_eq j id ≡ false
    → find id (complete j make s).pending ≡ find id s.pending
unfolding complete
find-complete id j make s h = ground (arith, find-left_after id j s.pending)

find-insert_entry :
    (id j : String) (p : Pending) (m : Map)
    → str_eq j id ≡ false
    → find id (insert_entry j p m) ≡ find id m
unfolding insert_entry take_entry
find-insert_entry id j p m h = ground (arith, find-left_after id j m)

pub find-insert_entry_self :
    (id : String) (p : Pending) (m : Map) → find id (insert_entry id p m) ≡ some p
unfolding insert_entry take_entry
find-insert_entry_self id p m = rw (str_eq_refl id)

module _ (r : Rendering) where
  -- The id whose request a JSON value completes.
  abbrev pub addressed : Value → Option String
  addressed v = elim (decode_value r v) [
    | ok response ↦ some (response_id response)
    | err message ↦ value_id v
  ]

  on_value-spares :
      (parse : List ℕ → Result Value String) (id : String) (v : Value) (s : Dispatcher)
      → addressed v ≢ some id
      → (find id (on_value r parse v s).pending ≡ find id s.pending)
        × ((on_value r parse v s).running ≡ s.running)
  unfolding on_value
  on_value-spares parse id v s ne = go (decode_value r v) refl
    where
      other : (j : String) → addressed v ≡ some j → str_eq j id ≡ false
      other j q = elim (Bool-cases (str_eq j id)) [
        | inl same ↦ absurd (ne (q ∙ ap some (str_eq_iff_true j id same)))
        | inr differ ↦ differ
      ]

      one :
          (j : String) (make : PendingKind → Result Response Error)
          → addressed v ≡ some j
          → (find id (complete j make s).pending ≡ find id s.pending)
            × ((complete j make s).running ≡ s.running)
      one j make q = (find-complete id j make s (other j q), running-complete j make s)

      go :
          (d : Result Response String)
          → decode_value r v ≡ d
          → (find id (on_value r parse v s).pending ≡ find id s.pending)
            × ((on_value r parse v s).running ≡ s.running)
      go (ok response) q =
          rw (q, on_value)
            (one (response_id response) (λ k. ok (remap_response k response)) (rw (q, addressed)))
      go (err message) q = elim (Option-cases (value_id v)) [
        | inl absent ↦ rw (q, absent, on_value) (refl, refl)
        | inr (j, present) ↦
            rw (q, present, on_value)
              (one j (λ k. err (protocol (protocol_decode_error message)))
                (rw (q, addressed) present))
      ]

module _ (r : Rendering) (parse : List ℕ → Result Value String) where
  -- An event that leaves the request of an id alone: a write of another request, or a frame that
  -- is JSON and completes another request, or none.
  abbrev pub Spares : String → Event → Type 0
  Spares id (outbound o none) = str_eq o.id id ≡ false
  Spares id (frame bytes) = (v : Value) × (parse bytes ≡ ok v) × (addressed r v ≢ some id)
  Spares id _ = ⊥

  abbrev pub AllSpare : String → List Event → Type 0
  AllSpare id [] = Unit {0}
  AllSpare id (e ∷ es) = Spares id e × AllSpare id es

  abbrev pub Waits : String → Pending → Dispatcher → Type 0
  Waits id p s = (s.running ≡ true) × (find id s.pending ≡ some p)

  pub step-running :
      (e : Event) (s : Dispatcher) → s.running ≡ true → step r parse e s ≡ react r parse e s
  unfolding step
  step-running e s on = simp on

  step-Waits :
      (id : String) (p : Pending) (e : Event) (s : Dispatcher)
      → Spares id e
      → Waits id p s
      → Waits id p (step r parse e s)
  unfolding react on_outbound on_frame
  step-Waits id p (outbound o none) s sp w = rw (step-running (outbound o none) s w.0) (
    w.0,
    find-insert_entry id o.id (record { reply = o.reply; kind = o.kind }) s.pending sp ∙ w.1,
  )
  step-Waits id p (frame bytes) s (v, q, ne) w =
      let kept = on_value-spares r parse id v s ne in
      rw (step-running (frame bytes) s w.0, q, on_frame) (kept.1 ∙ w.0, kept.0 ∙ w.1)
  step-Waits id p (outbound o (some e)) s sp w = absurd sp
  step-Waits id p handles_dropped s sp w = absurd sp
  step-Waits id p (broken e) s sp w = absurd sp
  step-Waits id p peer_closed s sp w = absurd sp
  step-Waits id p aborted s sp w = absurd sp

  pub run-Waits :
      (id : String) (p : Pending) (es : List Event) (s : Dispatcher)
      → AllSpare id es
      → Waits id p s
      → Waits id p (run r parse es s)
  unfolding run
  run-Waits id p [] s sp w = w
  run-Waits id p (e ∷ es) s sp w =
      run-Waits id p es (step r parse e s) sp.1 (step-Waits id p e s sp.0 w)

  pub run-append :
      (es fs : List Event) (s : Dispatcher)
      → run r parse (es ++ fs) s ≡ run r parse fs (run r parse es s)
  unfolding run
  run-append [] fs s = refl
  run-append (e ∷ es) fs s = run-append es fs (step r parse e s)

  -- The frame that carries the response answers the waiting request.
  step-answers :
      (id : String) (p : Pending) (bytes : List ℕ) (v : Value) (response : Response)
      (s : Dispatcher)
      → Waits id p s
      → parse bytes ≡ ok v
      → decode_value r v ≡ ok response
      → response_id response ≡ id
      → ((step r parse (frame bytes) s).replies
          ≡ (p.reply, answered (ok (remap_response p.kind response))) ∷ s.replies)
        × ((step r parse (frame bytes) s).running ≡ true)
  unfolding react on_frame on_value complete
  step-answers id p bytes v response s w q d same =
      rw (step-running (frame bytes) s w.0, q, on_frame, d, on_value, same)
        (ground (arith, w.1, w.0))

  -- A request is written; then other requests are written and frames for other requests come in, in
  -- any order and number; then a frame comes whose response has the request's id. The last reply
  -- given is to the request's caller, and is the response, remapped by the request's kind.
  pub reply_reaches_caller :
      (o : Outbound) (es : List Event) (bytes : List ℕ) (v : Value) (response : Response)
      (s : Dispatcher)
      → s.running ≡ true
      → AllSpare o.id es
      → parse bytes ≡ ok v
      → decode_value r v ≡ ok response
      → response_id response ≡ o.id
      → head? (run r parse (outbound o none ∷ (es ++ frame bytes ∷ [])) s).replies
        ≡ some (o.reply, answered (ok (remap_response o.kind response)))
  unfolding run react on_outbound
  reply_reaches_caller o es bytes v response s on sp q d same =
      let p : Pending = record { reply = o.reply; kind = o.kind } in
      let first : Waits o.id p (step r parse (outbound o none) s) =
        rw (step-running (outbound o none) s on) (on, find-insert_entry_self o.id p s.pending) in
      let later = run-Waits o.id p es (step r parse (outbound o none) s) sp first in
      rw (run-append es (frame bytes ∷ []) (step r parse (outbound o none) s))
        (ap head? (step-answers o.id p bytes v response _ later q d same).0)
