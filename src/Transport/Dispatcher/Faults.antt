-- ===== src/Transport/Dispatcher/Faults.antt =====
-- src/transport/dispatcher.rs: frames that are JSON but are not understood.
use mapepire_rs.Prelude.{
  ℕ, ◌≡◌, refl, ap, ◌∙◌, String, true, none, some, List, [], ◌∷◌, ◌++◌, head?, arith, Result, ok,
  err, map_err, ap₂, ◌>>=◌,
}
use mapepire_rs.Protocol.Json.{Value, Items, array, Fields}
use mapepire_rs.Protocol.Response.{QueryResult, Column}
use mapepire_rs.Protocol.Response.Rows.{
  terse_text, named_row, named_rows, terse_row, named_rows_from_wire,
}
use mapepire_rs.Protocol.Serde.{SerdeError, custom}
use mapepire_rs.Protocol.Rendering.{Rendering}
use mapepire_rs.Protocol.Decode.{
  decode_value, QueryResultDe, de_query_result_raw, de_query_result, finish_query_result,
}
use mapepire_rs.Error.{protocol, ProtocolError, terse_rows_without_columns}
use mapepire_rs.Transport.Dispatcher.Table.{Pending}
use mapepire_rs.Transport.Dispatcher.Routing.{
  AllSpare, Waits, step-running, run-Waits, run-append, find-insert_entry_self,
}
use mapepire_rs.Transport.Dispatcher.{
  Outbound, outbound, frame, Event, Dispatcher, answered, protocol_decode_error, value_id, complete,
  on_value, on_frame, on_outbound, react, step, run,
}

module _ (r : Rendering) (parse : List ℕ → Result Value String) where
  step-faults :
      (id : String) (p : Pending) (bytes : List ℕ) (v : Value) (message : String) (s : Dispatcher)
      → Waits r parse id p s
      → parse bytes ≡ ok v
      → decode_value r v ≡ err message
      → value_id v ≡ some id
      → ((step r parse (frame bytes) s).replies
          ≡ (p.reply, answered (err (protocol (protocol_decode_error message)))) ∷ s.replies)
        × ((step r parse (frame bytes) s).running ≡ true)
  unfolding react on_frame on_value complete
  step-faults id p bytes v message s w q d named =
      rw (step-running r parse (frame bytes) s w.0, q, on_frame, d, on_value, named)
        (ground (arith, w.1, w.0))

  -- A request is written, and other requests and frames for them come in between, in any order and
  -- number. Then a frame comes that is JSON with the id of the request but is no response: its
  -- caller gets the protocol error of the message, and the task goes on.
  pub bad_frame_fails_caller :
      (o : Outbound) (es : List Event) (bytes : List ℕ) (v : Value) (message : String)
      (s : Dispatcher)
      → s.running ≡ true
      → AllSpare r parse o.id es
      → parse bytes ≡ ok v
      → decode_value r v ≡ err message
      → value_id v ≡ some o.id
      → let t = run r parse (outbound o none ∷ (es ++ frame bytes ∷ [])) s in
        (head? t.replies
          ≡ some (o.reply, answered (err (protocol (protocol_decode_error message)))))
        × (t.running ≡ true)
  unfolding run react on_outbound
  bad_frame_fails_caller o es bytes v message s on sp q d named =
      let p : Pending = record { reply = o.reply; kind = o.kind } in
      let first : Waits r parse o.id p (step r parse (outbound o none) s) =
        rw (step-running r parse (outbound o none) s on)
          (on, find-insert_entry_self o.id p s.pending) in
      let later = run-Waits r parse o.id p es (step r parse (outbound o none) s) sp first in
      let (told, goes) = step-faults o.id p bytes v message _ later q d named in
      rw (run-append r parse es (frame bytes ∷ []) (step r parse (outbound o none) s))
        (ap head? told, goes)

unnamed_rows :
    (display : Value → String) (columns : List Column) (values rest : List Value) (cells : Items)
    → columns ≡ []
    → values ≡ array cells ∷ rest
    → named_rows display 0 columns values ≡ err terse_text
unfolding named_rows named_row terse_row
unnamed_rows display columns values rest cells h k = ap₂ (named_rows display 0) h k

terse_text_named : protocol_decode_error terse_text ≡ terse_rows_without_columns
unfolding protocol_decode_error
terse_text_named = refl

-- A result frame whose rows are arrays and that names no columns is reported as
-- `TerseRowsWithoutColumns`, by the text of its error.
pub unnamed_rows_error :
    (r : Rendering) (fs : Fields) (raw : QueryResultDe) (cells : Items) (rest : List Value)
    → de_query_result_raw fs ≡ ok raw
    → raw.metadata.columns ≡ []
    → raw.values ≡ array cells ∷ rest
    → map_err (λ e. protocol_decode_error (r.serde_text e)) (de_query_result r fs)
      ≡ err terse_rows_without_columns
unfolding de_query_result named_rows_from_wire
unnamed_rows_error r fs raw cells rest read unnamed arrays =
    let finish : List Fields → Result QueryResult SerdeError =
      λ rows. ok (finish_query_result raw rows) in
    let named =
      unnamed_rows r.value_text raw.metadata.columns raw.values rest cells unnamed arrays in
    let report : Result QueryResult SerdeError → Result QueryResult ProtocolError =
      map_err (λ e. protocol_decode_error (r.serde_text e)) in
    ap
      (λ m. report (
        m >>= λ x.
        map_err custom (named_rows_from_wire r.value_text x.metadata x.values) >>= λ rows.
        ok (finish_query_result x rows)))
      read
    ∙ ap (λ m. report (map_err custom m >>= finish)) named
    ∙ ap (λ m. err (protocol_decode_error m)) (r.custom_text terse_text)
    ∙ ap err terse_text_named
