-- ===== src/Protocol/RoundTrip/Stable.antt =====
-- src/protocol/decode.rs: whatever frame is decoded, its response can be written and read back.
use mapepire_rs.Prelude.{◌≡◌, refl, subst, String, Bool, Option, Result, ok, err, ok_or}
use mapepire_rs.Prelude.Text.{str_eq}
use mapepire_rs.Protocol.Json.{
  Value, null, bool, number, string, array, object, Fields, get_str, get_bool, remove,
}
use mapepire_rs.Protocol.Serde.{Decoded}
use mapepire_rs.Protocol.Rendering.{Rendering}
use mapepire_rs.Protocol.Response.{
  Response, connected, pong, exited, sql_closed, version, db_job, config_set, trace_data,
}
use mapepire_rs.Protocol.Decode.{
  decode_value, decode_tagged, tagged_body, decode_untagged, decode_failed, decode_ack, as_result,
}
use mapepire_rs.Protocol.Encode.Response.{encode_response}
use mapepire_rs.Protocol.RoundTrip.Response.{FitsResponse, decode_value-encode_response}
use mapepire_rs.Protocol.RoundTrip.Fitting.{
  Fit, choose, made, failed, after, mapped, result-Fit, error-Fit, dove-Fit, prepared-Fit,
  connected-Fit, id-Fit, success-Fit, text-Fit, messages-Fit, trace-Fit,
}

-- The bodies that the tags choose from.
BodiesFit : Result (Decoded Response) String → Type 0
BodiesFit b = (d : Decoded Response) → b ≡ ok d → Fit d

body_eq :
    (d d' : Decoded Response) (b : Result (Decoded Response) String) → b ≡ ok d → b ≡ ok d' → d ≡ d'
body_eq d d' b h e = cc

body : (d : Decoded Response) → Fit d → BodiesFit (ok d)
unfolding BodiesFit
body d f d' h = subst Fit (body_eq d d' (ok d) refl h) f

no_body : (e : String) → BodiesFit (err e)
unfolding BodiesFit
no_body e d h = absurd (cc)

tagged_body-BodiesFit :
    (r : Rendering) (tag : String) (fs : Fields) → BodiesFit (tagged_body r tag fs)
unfolding tagged_body FitsResponse as_result
tagged_body-BodiesFit r tag fs =
    choose BodiesFit (str_eq tag "connected") _ _ (body _ (connected-Fit fs)) (
      choose BodiesFit (str_eq tag "pong") _ _ (body _ (id-Fit pong (λ i. tt) fs)) (
        choose BodiesFit (str_eq tag "exited") _ _ (body _ (id-Fit exited (λ i. tt) fs)) (
          choose BodiesFit (str_eq tag "query_result") _ _ (body _ (result-Fit r fs)) (
            choose BodiesFit (str_eq tag "prepared_statement") _ _ (body _ (prepared-Fit fs)) (
              choose BodiesFit (str_eq tag "sql_closed") _ _
                (body _ (success-Fit sql_closed (λ i s. tt) fs))
                (choose BodiesFit (str_eq tag "cl_result") _ _ (body _ (messages-Fit fs)) (
                  choose BodiesFit (str_eq tag "version") _ _
                    (body _ (text-Fit version (λ i s t. tt) "version" fs))
                    (choose BodiesFit (str_eq tag "db_job") _ _
                      (body _ (text-Fit db_job (λ i s t. tt) "job" fs))
                      (choose BodiesFit (str_eq tag "config_set") _ _
                        (body _ (success-Fit config_set (λ i s. tt) fs))
                        (choose BodiesFit (str_eq tag "trace_data") _ _ (body _ (trace-Fit fs)) (
                          choose BodiesFit (str_eq tag "dove_result") _ _ (body _ (dove-Fit fs)) (
                            choose BodiesFit (str_eq tag "error") _ _ (body _ (error-Fit fs))
                              (no_body _)))))))))))))

tagged-Fit : (r : Rendering) (fs : Fields) → Fit (decode_tagged r fs)
unfolding decode_tagged BodiesFit
tagged-Fit r fs = after (ok_or _ (get_str "type" fs)) _ (λ tag _.
    after (tagged_body r tag (remove "type" fs)) _
      (λ d e. mapped r.serde_text d (tagged_body-BodiesFit r tag (remove "type" fs) d e)))

failed-Fit : (r : Rendering) (fs : Fields) → Fit (decode_failed r fs)
unfolding decode_failed
failed-Fit r fs = choose Fit _ _ _ (dove-Fit fs) (choose Fit _ _ _ (result-Fit r fs) (error-Fit fs))

ack-Fit : (success : Option Bool) (fs : Fields) → Fit (decode_ack success fs)
unfolding decode_ack FitsResponse
ack-Fit success fs = choose Fit _ _ _ (made _ (connected _ _ _) tt) (
    choose Fit _ _ _ (made _ (version _ _ _) tt) (
      choose Fit _ _ _ (made _ (trace_data _ _ _) tt)
        (choose Fit _ _ _ (made _ (pong _) tt) (failed _))))

untagged-Fit : (r : Rendering) (fs : Fields) → Fit (decode_untagged r fs)
unfolding decode_untagged
untagged-Fit r fs = choose Fit _ _ _ (mapped r.serde_text _ (failed-Fit r fs)) (
    choose Fit _ _ _ (mapped r.serde_text _ (prepared-Fit fs)) (
      choose Fit _ _ _ (mapped r.serde_text _ (dove-Fit fs)) (
        choose Fit _ _ _ (mapped r.serde_text _ (result-Fit r fs))
          (ack-Fit (get_bool "success" fs) fs))))

value-Fit : (r : Rendering) (v : Value) → Fit (decode_value r v)
unfolding decode_value
value-Fit r (object fs) = choose Fit _ _ _ (tagged-Fit r fs) (untagged-Fit r fs)
value-Fit r null = failed _
value-Fit r (bool b) = failed _
value-Fit r (number n) = failed _
value-Fit r (string s) = failed _
value-Fit r (array vs) = failed _

-- Whatever JSON value decodes to a response, tagged or not, the response fits the types of its
-- fields: it can be written, and reads back as it was.
pub decoded_reads_back :
    (r : Rendering) (v : Value) (x : Response)
    → decode_value r v ≡ ok x
    → FitsResponse x × (decode_value r (object (encode_response x)) ≡ ok x)
unfolding Fit
decoded_reads_back r v x h =
    let fits = value-Fit r v x h in (fits, decode_value-encode_response r x fits)
