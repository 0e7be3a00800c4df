-- ===== src/Transport/Dispatcher/Cases.antt =====
-- What a frame can do to the dispatcher of src/transport/dispatcher.rs, for the proofs below it.
use mapepire_rs.Prelude.{
  ℕ, String, List, ◌≡◌, refl, Bool, true, false, if◌then◌else◌, inl, inr, Result, ok, err,
  Result-cases, Option-cases,
}
use mapepire_rs.Protocol.Json.{Value}
use mapepire_rs.Protocol.Response.{Response}
use mapepire_rs.Protocol.Rendering.{Rendering}
use mapepire_rs.Protocol.Decode.{decode_value}
use mapepire_rs.Error.{Error, protocol, json}
use mapepire_rs.Transport.Kinds.{PendingKind, remap_response, response_id}
use mapepire_rs.Transport.Dispatcher.{
  Event, Dispatcher, stop, drain_pending_with_error, complete, value_id, protocol_decode_error,
  on_value, on_frame, react, after_stop, step,
}

module _ (r : Rendering) (parse : List ℕ → Result Value String) where
  -- A JSON value completes at most one request.
  pub on_value_cases {ℓ} :
      (P : Dispatcher → Type ℓ) (v : Value) (s : Dispatcher)
      → P s
      → ((id : String) (make : PendingKind → Result Response Error) → P (complete id make s))
      → P (on_value r parse v s)
  unfolding on_value
  on_value_cases P v s same one = elim (Result-cases (decode_value r v)) [
    | inl (response, e) ↦
        rw (e, on_value) (one (response_id response) (λ k. ok (remap_response k response)))
    | inr (message, e) ↦ elim (Option-cases (value_id v)) [
      | inl absent ↦ rw (e, absent, on_value) same
      | inr (id, found) ↦
          rw (e, found, on_value) (one id (λ k. err (protocol (protocol_decode_error message))))
    ]
  ]

  pub on_frame_cases {ℓ} :
      (P : Dispatcher → Type ℓ) (bytes : List ℕ) (s : Dispatcher)
      → P s
      → ((id : String) (make : PendingKind → Result Response Error) → P (complete id make s))
      → ((message : String) → P (stop (drain_pending_with_error (protocol (json message)) s)))
      → P (on_frame r parse bytes s)
  unfolding on_frame
  on_frame_cases P bytes s same one fatal = elim (Result-cases (parse bytes)) [
    | inl (v, e) ↦ rw (e, on_frame) (on_value_cases P v s same one)
    | inr (message, e) ↦ rw (e, on_frame) (fatal message)
  ]

  pub step_cases {ℓ} :
      (P : Dispatcher → Type ℓ) (e : Event) (s : Dispatcher)
      → (s.running ≡ true → P (react r parse e s))
      → (s.running ≡ false → P (after_stop r parse e s))
      → P (step r parse e s)
  unfolding step
  step_cases P e s on off = go s.running refl
    where
      go : (b : Bool) → s.running ≡ b → P (if b then react r parse e s else after_stop r parse e s)
      go true q = on q
      go false q = off q
