-- ===== src/Query/Stream.antt =====
-- src/query.rs: `Rows::stream`, the closure that `unfold` polls, the destructor of its state, and
-- the collections that drive it.
pub mod Pages
pub mod Close
pub mod Ending
pub mod Termination
use mapepire_rs.Prelude.{
  ℕ, zero, suc, String, Bool, true, false, Option, none, some, List, [], ◌∷◌, if◌then◌else◌, Result,
  ok, err,
}
use mapepire_rs.Prelude.Text.{str_eq}
use mapepire_rs.Protocol.Json.{Fields}
use mapepire_rs.Protocol.Request.{Request, sql_more}
use mapepire_rs.Protocol.Response.{QueryResult, Response, query_result, error, non_empty}
use mapepire_rs.Protocol.Ids.{IdAllocator, next}
use mapepire_rs.Error.{Error, internal, server_error, unexpected}
use mapepire_rs.Client.{Session, Server}
use mapepire_rs.Query.Rows.{Rows, spawn_close}

pub record StreamState : Type 0 where
  pub rows : List Fields
  pub cont_id : Option String
  pub done : Bool
  pub ids : IdAllocator
  pub page_size : ℕ

-- `Rows::stream` with the allocator that it makes; the rows keep no cursor.
unfoldable pub stream : Rows → IdAllocator → StreamState
stream rows ids = record {
  rows = rows.inner.rows;
  cont_id = rows.cursor;
  done = rows.inner.is_done;
  ids = ids;
  page_size = rows.page_size;
}

-- `Drop for StreamState`.
unfoldable pub drop_stream : StreamState → Session → Session
unfolding spawn_close
drop_stream state s =
    if state.done then s else elim state.cont_id [ none ↦ s | some cont_id ↦ spawn_close cont_id s ]

-- What one poll yields: the end, a row or an error.
pub data Item : Type 0 where
  end : Item
  row : Fields → Item
  failed : Error → Item

pub record Polled : Type 0 where
  pub item : Item
  pub state : StreamState
  pub session : Session

abbrev polled : Item → StreamState → Session → Polled
polled item state s = record { item = item; state = state; session = s }

unfoldable pub empty_page : Error
empty_page = internal "server returned empty page without is_done"

-- The empty page of a cursor that is not done: the cursor is closed and the stream halts.
halt : StreamState → Session → Polled
unfolding spawn_close empty_page
halt state s =
    polled (failed empty_page) (record state { cont_id = none; done = true })
      (elim state.cont_id [ none ↦ s | some cont_id ↦ spawn_close cont_id s ])

-- A page has come; `state` has its flag already.
take_page : List Fields → StreamState → Session → Polled
unfolding halt
take_page (r ∷ rest) state s = polled (row r) (record state { rows = rest }) s
take_page [] state s =
    if state.done
    then polled end (record state { rows = [] }) s
    else halt (record state { rows = [] }) s

abbrev prepend : {T : Type 0} → T → Result (List T) Error → Result (List T) Error
prepend t (ok ts) = ok (t ∷ ts)
prepend t (err e) = err e

module _ (debug : Response → String) (serve : Server) where
  on_answer : String → Result Response Error → StreamState → Session → Polled
  unfolding take_page
  on_answer id (ok (query_result q)) state s =
      if str_eq q.id id
      then take_page q.rows (record state { done = q.is_done }) s
      else polled (failed (unexpected debug (query_result q))) state s
  on_answer id (ok (error e)) state s = polled (failed (server_error e)) state s
  on_answer id (ok other) state s = polled (failed (unexpected debug other)) state s
  on_answer id (err e) state s = polled (failed e) state s

  -- The `sqlmore` round trip.
  unfoldable pub fetch : String → StreamState → Session → Polled
  unfolding on_answer next
  fetch cont_id state s =
      let (id, ids) = next state.ids in
      let request = sql_more id cont_id state.page_size in
      on_answer id (serve s request) (record state { ids = ids })
        (record s { sent = request ∷ s.sent })

  poll_empty : StreamState → Session → Polled
  unfolding fetch
  poll_empty state s = if state.done then polled end state s else elim (non_empty state.cont_id) [
    | none ↦ polled end state s
    | some cont_id ↦ fetch cont_id state s
  ]

  poll_rows : List Fields → StreamState → Session → Polled
  unfolding poll_empty
  poll_rows (r ∷ rest) state s = polled (row r) (record state { rows = rest }) s
  poll_rows [] state s = poll_empty state s

  unfoldable pub poll : StreamState → Session → Polled
  unfolding poll_rows
  poll state s = poll_rows state.rows state s

  -- `try_collect` of the stream mapped by `convert`; the state is dropped with the stream. The
  -- fuel bounds the polls, and `none` says that it ran out.
  unfoldable pub try_collect :
      {T : Type 0}
      → (Fields → Result T Error)
      → ℕ
      → StreamState
      → Session
      → Option (Result (List T) Error × Session)
  unfolding drop_stream
  try_collect convert zero state s = none
  try_collect convert (suc fuel) state s =
      let p = poll state s in
      let rest = try_collect convert fuel p.state p.session in
      elim p.item [
        | end ↦ some (ok [], drop_stream p.state p.session)
        | failed e ↦ some (err e, drop_stream p.state p.session)
        | row r ↦ elim (convert r) [
          | err e ↦ some (err e, drop_stream p.state p.session)
          | ok t ↦ elim rest [ none ↦ none | some out ↦ some (prepend t out.0, out.1) ]
        ]
      ]

  -- `Rows::into_dynamic`; `into_typed` has `T::from_row` for `convert`.
  unfoldable pub into_dynamic :
      ℕ → Rows → IdAllocator → Session → Option (Result (List Fields) Error × Session)
  unfolding try_collect stream poll
  into_dynamic fuel rows ids s = try_collect ok fuel (stream rows ids) s
