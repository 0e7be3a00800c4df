-- ===== src/Protocol/Results.antt =====
-- src/protocol/response.rs: what `QueryResult::deserialize` makes of the fields of a frame.
use mapepire_rs.Prelude.{
  ◌≡◌, ap, sym, arith, ◌∙◌, subst, Bool, true, false, not, ◌||◌, List, [], ◌∷◌, Result, ok, err,
  map_err, bind_ok, unwrap_or,
}
use mapepire_rs.Protocol.Json.{Fields}
use mapepire_rs.Protocol.Serde.{custom}
use mapepire_rs.Protocol.Response.{QueryResult}
use mapepire_rs.Protocol.Response.Rows.{named_rows_from_wire}
use mapepire_rs.Protocol.Rendering.{Rendering}
use mapepire_rs.Protocol.NamedRows.{RowsMatch, rows_match}
use mapepire_rs.Protocol.Decode.{
  QueryResultDe, de_query_result_raw, de_query_result, finish_query_result,
}

map_err_ok : {A E F : Type 0} (f : E → F) (m : Result A E) (a : A) → map_err f m ≡ ok a → m ≡ ok a
map_err_ok f (ok a) b h = ap ok (cc)
map_err_ok f (err e) b h = absurd (cc)

abbrev pub has_rows : List Fields → Bool
has_rows [] = false
has_rows (r ∷ rs) = true

is_done-finish :
    (raw : QueryResultDe) (rows : List Fields)
    → (finish_query_result raw rows).is_done
      ≡ unwrap_or raw.is_done (not (raw.has_results || has_rows rows))
unfolding finish_query_result
is_done-finish raw rows = ground arith

-- A result that is decoded has the id of its frame and one map for each row on the wire. It is done
-- as its flag says; without a flag, exactly when it neither announces a result set nor has rows.
pub decoded_result :
    (r : Rendering) (fs : Fields) (q : QueryResult)
    → de_query_result r fs ≡ ok q
    → (raw : QueryResultDe) × (de_query_result_raw fs ≡ ok raw)
      × (q.id ≡ raw.id)
      × RowsMatch raw.metadata.columns raw.values q.rows
      × (q.is_done ≡ unwrap_or raw.is_done (not (raw.has_results || has_rows q.rows)))
unfolding de_query_result finish_query_result named_rows_from_wire
decoded_result r fs q h =
    let (raw, read, h') = bind_ok (de_query_result_raw fs) _ q h in
    let (rows, named, made) =
      bind_ok (map_err custom (named_rows_from_wire r.value_text raw.metadata raw.values)) _ q h' in
    let whole : finish_query_result raw rows ≡ q = cc in
    let same = ap (λ x. x.rows) whole in
    (
      raw,
      read,
      ap (λ x. x.id) (sym whole),
      subst (RowsMatch raw.metadata.columns raw.values) same (
          rows_match r.value_text 0 raw.metadata.columns raw.values rows
            (map_err_ok custom _ rows named)),
      ap (λ x. x.is_done) (sym whole)
          ∙ is_done-finish raw rows
          ∙ ap (λ x. unwrap_or raw.is_done (not (raw.has_results || has_rows x))) same,
    )
