-- ===== src/Query/Rows.antt =====
-- src/query.rs: `Rows`, `Row` and the close requests of their destructors.
use mapepire_rs.Prelude.{
  ℕ, String, Bool, Option, none, some, List, length, if◌then◌else◌, Result, ok, err, map_opt,
  map_err,
}
use mapepire_rs.Prelude.Text.{str_eq}
use mapepire_rs.Protocol.Json.{Value, Fields, get, object}
use mapepire_rs.Protocol.Request.{sql_close}
use mapepire_rs.Protocol.Response.{
  ℤ, pos, negsuc, Column, QueryResult, Response, query_result, error, cursor_handle,
}
use mapepire_rs.Protocol.Ids.{close_id}
use mapepire_rs.Error.{Error, decode, serde, missing_column, server_error, unexpected}
use mapepire_rs.Client.{Session, send_and_forget}

pub record Rows : Type 0 where
  pub inner : QueryResult
  pub page_size : ℕ
  pub cursor : Option String

unfoldable pub rows_of : QueryResult → ℕ → Rows
unfolding cursor_handle
rows_of q page_size = record {
  inner = q;
  page_size = page_size;
  cursor = if q.is_done then none else cursor_handle q;
}

unfoldable pub is_done : Rows → Bool
is_done rows = rows.inner.is_done

unfoldable pub first_page_len : Rows → ℕ
first_page_len rows = length rows.inner.rows

abbrev count_of : ℤ → Option ℤ
count_of (pos n) = some (pos n)
count_of (negsuc n) = none

unfoldable pub update_count : Rows → Option ℤ
update_count rows = if rows.inner.has_results then none else count_of rows.inner.update_count

unfoldable pub columns : Rows → Option (List Column)
columns rows = if rows.inner.has_results then some rows.inner.metadata.columns else none

-- `spawn_close`.
unfoldable pub spawn_close : String → Session → Session
unfolding send_and_forget
spawn_close cont_id = send_and_forget (sql_close (close_id cont_id) cont_id)

-- `Drop for Rows`.
unfoldable pub drop_rows : Rows → Session → Session
unfolding spawn_close
drop_rows rows s = elim rows.cursor [ none ↦ s | some cont_id ↦ spawn_close cont_id s ]

-- The `match` on the answer of an execute: a result of this very request, an error of the daemon,
-- or something unexpected. `debug` prints a response.
unfoldable pub accept_rows : (Response → String) → String → ℕ → Response → Result Rows Error
unfolding rows_of
accept_rows debug id page_size (query_result q) =
    if str_eq q.id id then ok (rows_of q page_size) else err (unexpected debug (query_result q))
accept_rows debug id page_size (error e) = err (server_error e)
accept_rows debug id page_size other = err (unexpected debug other)

-- `Row::get` and `Row::try_get`; `read` is the deserializer of the type asked for.
module _ {T : Type 0} (read : Value → Result T String) where
  abbrev read_cell : String → Value → Result T Error
  read_cell column v = map_err (λ m. decode (some column) (serde m)) (read v)

  unfoldable pub row_get : Fields → String → Result T Error
  row_get row column = elim (get column row) [
    | none ↦ err (decode (some column) (missing_column column))
    | some v ↦ read_cell column v
  ]

  unfoldable pub row_try_get : Fields → String → Option (Result T Error)
  row_try_get row column = map_opt (read_cell column) (get column row)

  -- `FromRow::from_row` of a deserializable type.
  unfoldable pub from_row : Fields → Result T Error
  from_row row = map_err (λ m. decode none (serde m)) (read (object row))
