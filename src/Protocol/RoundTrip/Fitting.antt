-- ===== src/Protocol/RoundTrip/Fitting.antt =====
-- src/protocol/decode.rs: the bodies of responses fit their types.
use mapepire_rs.Prelude.{
  ◌≡◌, ◌≢◌, refl, subst, String, Bool, true, false, some, if◌then◌else◌, Result, ok, err, ◌>>=◌,
  bind_ok, map_err, map_err_ok,
}
use mapepire_rs.Protocol.Json.{null, Fields}
use mapepire_rs.Protocol.Serde.{
  de_string, de_bool, de_f64, de_value, de_vec, required, default, optional,
}
use mapepire_rs.Protocol.Rendering.{Rendering}
use mapepire_rs.Protocol.Response.{
  Response, connected, query_result, prepared_statement, cl_result, trace_data, error,
}
use mapepire_rs.Protocol.Decode.{
  de_prepared_statement, de_connected, de_id_body, de_success_body, de_cl_result, de_text_body,
  de_trace_data, de_error_response, de_query_result, decode_dove, de_dove_body, dove_from_body,
  de_cl_message, as_result, de_null_as_empty, zero_f64, DoveResultBody,
}
use mapepire_rs.Protocol.RoundTrip.Decoded.{ok_eq, value-ne-null}
use mapepire_rs.Protocol.RoundTrip.Range.{de_query_result-Fits, de_error_response-Fits}
use mapepire_rs.Protocol.RoundTrip.Response.{FitsResponse}

-- All that a decoder yields fits.
unfoldable pub Fit : {E : Type 0} → Result Response E → Type 0
Fit d = (x : Response) → d ≡ ok x → FitsResponse x

pub choose {ℓ κ} :
    {A : Type ℓ} (P : A → Type κ) (b : Bool) (x y : A) → P x → P y → P (if b then x else y)
choose P true x y p q = p
choose P false x y p q = q

same : {E : Type 0} (x y : Response) (m : Result Response E) → m ≡ ok x → m ≡ ok y → x ≡ y
same x y m h e = cc

pub made : (E : Type 0) (x : Response) → FitsResponse x → Fit {E = E} (ok x)
unfolding Fit
made E x f y h = subst FitsResponse (same x y (ok x) refl h) f

pub failed : {E : Type 0} (e : E) → Fit (err e)
unfolding Fit
failed e y h = absurd (cc)

pub after :
    {A E : Type 0} (m : Result A E) (k : A → Result Response E)
    → ((a : A) → m ≡ ok a → Fit (k a))
    → Fit (m >>= k)
after (ok a) k h = h a refl
after (err e) k h = failed e

pub mapped : {E F : Type 0} (f : E → F) (m : Result Response E) → Fit m → Fit (map_err f m)
unfolding Fit
mapped f m h x e = h x (map_err_ok f m x e)

dove_body : (fs : Fields) (b : DoveResultBody) → de_dove_body fs ≡ ok b → b.vemetadata ≢ some null
unfolding de_dove_body
dove_body fs b h =
    let (id, _, h1) = bind_ok (required de_string "id" fs) _ b h in
    let (success, _, h2) = bind_ok (required de_bool "success" fs) _ b h1 in
    let (vedata, _, h3) = bind_ok (optional de_value "vedata" fs) _ b h2 in
    let (meta, e, h4) = bind_ok (optional de_value "vemetadata" fs) _ b h3 in
    let (result, _, h5) = bind_ok (optional de_value "result" fs) _ b h4 in
    subst (λ x. x.vemetadata ≢ some null) (ok_eq _ b _ refl h5)
      (value-ne-null "vemetadata" fs meta e)

pub result-Fit : (r : Rendering) (fs : Fields) → Fit (as_result r fs)
unfolding as_result FitsResponse
result-Fit r fs =
    after (de_query_result r fs) _ (λ q e. made _ (query_result q) (de_query_result-Fits r fs q e))

pub error-Fit : (fs : Fields) → Fit (de_error_response fs >>= λ e. ok (error e))
unfolding FitsResponse
error-Fit fs =
    after (de_error_response fs) _ (λ c e. made _ (error c) (de_error_response-Fits fs c e))

pub dove-Fit : (fs : Fields) → Fit (decode_dove fs)
unfolding decode_dove dove_from_body FitsResponse
dove-Fit fs = after (de_dove_body fs) _ (λ b e. made _ (dove_from_body b) (dove_body fs b e))

pub prepared-Fit : (fs : Fields) → Fit (de_prepared_statement fs)
unfolding de_prepared_statement FitsResponse
prepared-Fit fs = after (required de_string "id" fs) _ (λ id _.
    after (required de_bool "success" fs) _ (λ success _.
      after (required de_string "cont_id" fs) _ (λ cont_id _.
        after (default zero_f64 de_f64 "execution_time" fs) _
          (λ time _. made _ (prepared_statement id success cont_id time) tt))))

pub connected-Fit : (fs : Fields) → Fit (de_connected fs)
unfolding de_connected FitsResponse
connected-Fit fs = after (required de_string "id" fs) _ (λ id _.
    after (default "" de_string "version" fs) _ (λ text _.
      after (required de_string "job" fs) _ (λ job _. made _ (connected id text job) tt)))

pub id-Fit :
    (make : String → Response)
    → ((id : String) → FitsResponse (make id))
    → (fs : Fields) → Fit (de_id_body make fs)
unfolding de_id_body
id-Fit make f fs = after (required de_string "id" fs) _ (λ id _. made _ (make id) (f id))

pub success-Fit :
    (make : String → Bool → Response)
    → ((id : String) (success : Bool) → FitsResponse (make id success))
    → (fs : Fields) → Fit (de_success_body make fs)
unfolding de_success_body
success-Fit make f fs = after (required de_string "id" fs) _ (λ id _.
    after (required de_bool "success" fs) _ (λ success _. made _ (make id success) (f id success)))

pub text-Fit :
    (make : String → Bool → String → Response)
    → ((id : String) (success : Bool) (text : String) → FitsResponse (make id success text))
    → (key : String) (fs : Fields) → Fit (de_text_body make key fs)
unfolding de_text_body
text-Fit make f key fs = after (required de_string "id" fs) _ (λ id _.
    after (required de_bool "success" fs) _ (λ success _.
      after (required de_string key fs) _
        (λ text _. made _ (make id success text) (f id success text))))

pub messages-Fit : (fs : Fields) → Fit (de_cl_result fs)
unfolding de_cl_result FitsResponse
messages-Fit fs = after (required de_string "id" fs) _ (λ id _.
    after (required de_bool "success" fs) _ (λ success _.
      after (required (de_vec de_cl_message) "messages" fs) _
        (λ messages _. made _ (cl_result id success messages) tt)))

pub trace-Fit : (fs : Fields) → Fit (de_trace_data fs)
unfolding de_trace_data FitsResponse
trace-Fit fs = after (required de_string "id" fs) _ (λ id _.
    after (required de_bool "success" fs) _ (λ success _.
      after (default "" de_null_as_empty "tracedata" fs) _
        (λ text _. made _ (trace_data id success text) tt)))
