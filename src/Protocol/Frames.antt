-- ===== src/Protocol/Frames.antt =====
-- src/protocol/decode.rs: how the untagged frames of a live daemon are told apart.
use mapepire_rs.Prelude.{
  ◌≡◌, refl, ap, sym, ◌∙◌, String, Bool, true, false, none, some, List, [], ◌∷◌, arith,
  if◌then◌else◌, unwrap_or, inl, inr, ◌⊎◌, Result, ok, err, map_err, ◌>>=◌, All, subst,
}
use mapepire_rs.Protocol.Json.{object, Fields, contains_key, get_str, get_bool}
use mapepire_rs.Protocol.Response.{Response, pong, query_result, dove_result, error}
use mapepire_rs.Protocol.Rendering.{Rendering}
use mapepire_rs.Protocol.Decode.{
  decode_value, decode_untagged, decode_failed, decode_ack, decode_dove, de_dove_body,
  dove_from_body, de_query_result, de_error_response,
}

-- The keys that tell the other frames from a plain acknowledgement.
abbrev pub discriminators : List String
discriminators =
    "type" ∷ "cont_id" ∷ "data" ∷ "has_results" ∷ "vedata" ∷ "vemetadata" ∷ "job" ∷ "version"
    ∷ "tracedata" ∷ "jtopentracedata" ∷ []

-- A frame with no `type`, handle, result, explain, job, version or trace key that does not report
-- failure is a pong with its id, or with an empty id when it has none, if it reports success, and an
-- error if it has no flag, whatever other keys it has and in any order.
pub plain_ack_is_pong :
    (r : Rendering) (fs : Fields) (success : Bool)
    → All (λ k. contains_key k fs ≡ false) discriminators
    → get_bool "success" fs ≡ (if success then some true else none)
    → decode_value r (object fs) ≡ (
        if success
        then ok (pong (unwrap_or (get_str "id" fs) ""))
        else err "unrecognized untagged response object")
unfolding decode_value decode_untagged decode_ack
plain_ack_is_pong r fs success (t, (c, (d, (h, (v, (m, (j, (n, (tr, (jt, _)))))))))) s =
    ground (arith, s)

-- A response that reports a failure or carries a result.
abbrev pub CanFail : Response → Type 0
CanFail (query_result q) = Unit {0}
CanFail (dove_result _ _ _ _) = Unit {0}
CanFail (error e) = Unit {0}
CanFail _ = ⊥

-- A bind that ends in a response of the kind does so on every branch.
CanFail-bind :
    {A E F : Type 0} (f : E → F) (m : Result A E) (k : A → Response)
    → ((a : A) → CanFail (k a))
    → (response : Response) → map_err f (m >>= λ a. ok (k a)) ≡ ok response
    → CanFail response
CanFail-bind f (ok a) k every response h = subst CanFail (cc) (every a)
CanFail-bind f (err e) k every response h = absurd (cc)

failed_branch :
    (r : Rendering) (fs : Fields)
    → (decode_failed r fs ≡ decode_dove fs)
      ⊎ (decode_failed r fs ≡ (de_query_result r fs >>= λ q. ok (query_result q)))
      ⊎ (decode_failed r fs ≡ (de_error_response fs >>= λ e. ok (error e)))
unfolding decode_failed
failed_branch r fs = ground arith

to_failed :
    (r : Rendering) (fs : Fields)
    → contains_key "type" fs ≡ false
    → get_bool "success" fs ≡ some false
    → decode_value r (object fs) ≡ map_err r.serde_text (decode_failed r fs)
unfolding decode_value decode_untagged
to_failed r fs untagged failed = rw (untagged, failed) refl

-- An untagged frame that reports failure is never taken for an acknowledgement: what is decoded is
-- a result, an explain result or an error.
pub failure_is_no_ack :
    (r : Rendering) (fs : Fields) (response : Response)
    → contains_key "type" fs ≡ false
    → get_bool "success" fs ≡ some false
    → decode_value r (object fs) ≡ ok response
    → CanFail response
unfolding decode_dove dove_from_body
failure_is_no_ack r fs response untagged failed h =
    let g = sym (to_failed r fs untagged failed) ∙ h in
    elim (failed_branch r fs) [
      | inl e ↦
          CanFail-bind r.serde_text (de_dove_body fs) dove_from_body (λ b. tt) response
            (sym (ap (map_err r.serde_text) e) ∙ g)
      | inr (inl e) ↦
          CanFail-bind r.serde_text (de_query_result r fs) query_result (λ q. tt) response
            (sym (ap (map_err r.serde_text) e) ∙ g)
      | inr (inr e) ↦
          CanFail-bind r.serde_text (de_error_response fs) error (λ e. tt) response
            (sym (ap (map_err r.serde_text) e) ∙ g)
    ]
