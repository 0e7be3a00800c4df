-- ===== src/Query/Stream/Close.antt =====
-- src/query.rs: which destructor closes the cursor of a result, and the halt on an empty page.
use mapepire_rs.Prelude.{
  ℕ, zero, suc, ◌≤◌, length, List, Bool, ◌≡◌, refl, String, true, false, none, some, [], ◌∷◌, arith,
  if◌then◌else◌, ok,
}
use mapepire_rs.Prelude.Text.{str_eq, is_empty}
use mapepire_rs.Protocol.Json.{Fields}
use mapepire_rs.Protocol.Request.{sql_more, sql_close}
use mapepire_rs.Protocol.Response.{QueryResult, Response, query_result, cursor_handle}
use mapepire_rs.Protocol.Ids.{IdAllocator, next, close_id}
use mapepire_rs.Client.{Session, Server}
use mapepire_rs.Query.Rows.{rows_of, drop_rows}
use mapepire_rs.Query.Stream.{
  StreamState, stream, drop_stream, take_page, failed, end, empty_page, polled, poll,
}

-- A result that is dropped with its cursor open sends one close, whether it is dropped itself or
-- has been turned into a stream that nobody polls; one that was done at once sends nothing.
pub one_close :
    (q : QueryResult) (page_size : ℕ) (ids : IdAllocator) (s : Session) (c : String)
    → cursor_handle q ≡ some c
    → let closed = if q.is_done then s.sent else sql_close (close_id c) c ∷ s.sent in
      ((drop_rows (rows_of q page_size) s).sent ≡ closed)
      × ((drop_stream (stream (rows_of q page_size) ids) s).sent ≡ closed)
unfolding drop_rows rows_of drop_stream stream
one_close q page_size ids s c h = (ground (arith, h), ground (arith, h))

-- A stream whose rows are used up and whose cursor is open.
abbrev waiting : String → IdAllocator → ℕ → StreamState
waiting c ids page_size = record {
  rows = [];
  cont_id = some c;
  done = false;
  ids = ids;
  page_size = page_size;
}

abbrev halted : IdAllocator → ℕ → StreamState
halted ids page_size = record {
  rows = [];
  cont_id = none;
  done = true;
  ids = ids;
  page_size = page_size;
}

poll-empty_page :
    (debug : Response → String) (serve : Server) (s : Session) (c : String) (ids : IdAllocator)
    (page_size : ℕ) (q : QueryResult)
    → is_empty c ≡ false
    → serve s (sql_more (next ids).0 c page_size) ≡ ok (query_result q)
    → str_eq q.id (next ids).0 ≡ true
    → q.rows ≡ []
    → q.is_done ≡ false
    → poll debug serve (waiting c ids page_size) s
      ≡ polled (failed empty_page) (halted (next ids).1 page_size) (record s {
        sent = sql_close (close_id c) c ∷ sql_more (next ids).0 c page_size ∷ s.sent;
      })
unfolding poll
poll-empty_page debug serve s c ids page_size q n a i e f = rw (n, a, poll, i, e, take_page, f)

-- An empty page of a cursor that is not done yields the internal error and one close of the cursor;
-- the next poll ends the stream without a request, and its destructor adds none.
pub empty_page_halts :
    (debug : Response → String) (serve : Server) (s : Session) (c : String) (ids : IdAllocator)
    (page_size : ℕ) (q : QueryResult)
    → is_empty c ≡ false
    → serve s (sql_more (next ids).0 c page_size) ≡ ok (query_result q)
    → str_eq q.id (next ids).0 ≡ true
    → q.rows ≡ []
    → q.is_done ≡ false
    → let p = poll debug serve (waiting c ids page_size) s in
      let again = poll debug serve p.state p.session in
      (p.item ≡ failed empty_page)
      × (p.session.sent ≡ sql_close (close_id c) c ∷ sql_more (next ids).0 c page_size ∷ s.sent)
      × (again.item ≡ end)
      × (drop_stream again.state again.session ≡ p.session)
empty_page_halts debug serve s c ids page_size q n a i e f =
    rw (poll-empty_page debug serve s c ids page_size q n a i e f)
      (refl, refl, unfold poll in refl, unfold poll drop_stream in refl)

-- The state and the session after a number of polls.
unfoldable pub after_polls :
    (Response → String) → Server → ℕ → StreamState → Session → StreamState × Session
unfolding poll
after_polls debug serve zero state s = (state, s)
after_polls debug serve (suc n) state s =
    let p = poll debug serve state s in after_polls debug serve n p.state p.session

-- A stream that is dropped after some of the rows of its page, or all of them, have been read has
-- sent nothing for these polls, and sends one close of its cursor if the daemon was not done with it
-- and nothing if it was.
pub early_drop_closes :
    (debug : Response → String) (serve : Server) (n : ℕ) (rows : List Fields) (c : String)
    (is_done : Bool) (ids : IdAllocator) (page_size : ℕ) (s : Session)
    → n ≤ length rows
    → let (state, t) =
        after_polls debug serve n
          (record {
            rows = rows;
            cont_id = some c;
            done = is_done;
            ids = ids;
            page_size = page_size;
          })
          s in
      (t ≡ s)
      × ((drop_stream state t).sent
          ≡ (if is_done then s.sent else sql_close (close_id c) c ∷ s.sent))
unfolding after_polls drop_stream
early_drop_closes debug serve zero rows c true ids page_size s h = (refl, refl)
early_drop_closes debug serve zero rows c false ids page_size s h = (refl, refl)
early_drop_closes debug serve (suc n) [] c is_done ids page_size s h = absurd (omega arith)
early_drop_closes debug serve (suc n) (r ∷ rest) c is_done ids page_size s h =
    early_drop_closes debug serve n rest c is_done ids page_size s (omega arith)
