-- ===== src/Query/Stream/Pages.antt =====
-- src/query.rs, `Rows::stream` and its collection, against a daemon that serves a cursor page by page.
use mapepire_rs.Prelude.{
  ℕ, zero, suc, ◌+◌, ◌<◌, ◌≡◌, ◌≢◌, refl, String, Bool, true, false, some, List, [], ◌∷◌, ◌++◌,
  length, length-append, arith, ok,
}
use mapepire_rs.Prelude.Text.{str_eq, is_empty}
use mapepire_rs.Protocol.Json.{Fields}
use mapepire_rs.Protocol.Request.{sql_more}
use mapepire_rs.Protocol.Response.{QueryResult, Response, query_result}
use mapepire_rs.Protocol.Ids.{IdAllocator, next}
use mapepire_rs.Client.{Session, Server}
use mapepire_rs.Query.Stream.{StreamState, take_page, row, polled, poll, try_collect}

abbrev pub no_pages : List (List Fields) → Bool
no_pages [] = true
no_pages (p ∷ ps) = false

abbrev pub all_rows : List (List Fields) → List Fields
all_rows [] = []
all_rows (p ∷ ps) = p ++ all_rows ps

-- A stream between two polls.
abbrev pub at : List Fields → String → Bool → IdAllocator → ℕ → StreamState
at rows cursor done ids page_size = record {
  rows = rows;
  cont_id = some cursor;
  done = done;
  ids = ids;
  page_size = page_size;
}

abbrev asked : String → IdAllocator → ℕ → Session → Session
asked cursor ids page_size s = record s { sent = sql_more (next ids).0 cursor page_size ∷ s.sent }

module _ (debug : Response → String) (serve : Server) (cursor : String) (page_size : ℕ) where
  -- The daemon answers each `sqlmore` for the cursor with the next page, which is not empty, under
  -- the id of the request, and sets `is_done` on the last page.
  abbrev pub Serves : List (List Fields) → IdAllocator → Session → Type 0
  Serves [] ids s = Unit {0}
  Serves (p ∷ ps) ids s =
      (q : QueryResult) × (serve s (sql_more (next ids).0 cursor page_size) ≡ ok (query_result q))
      × (str_eq q.id (next ids).0 ≡ true)
      × (q.rows ≡ p)
      × (p ≢ [])
      × (q.is_done ≡ no_pages ps)
      × Serves ps (next ids).1 (asked cursor ids page_size s)

  -- The session after one `sqlmore` for each page.
  abbrev pub after_pages : List (List Fields) → IdAllocator → Session → Session
  after_pages [] ids s = s
  after_pages (p ∷ ps) ids s = after_pages ps (next ids).1 (asked cursor ids page_size s)

  poll-page :
      (r : Fields) (rest : List Fields) (ps : List (List Fields)) (ids : IdAllocator) (s : Session)
      → is_empty cursor ≡ false
      → Serves ((r ∷ rest) ∷ ps) ids s
      → poll debug serve (at [] cursor false ids page_size) s
        ≡ polled
            (row r)
            (at rest cursor (no_pages ps) (next ids).1 page_size)
            (asked cursor ids page_size s)
  unfolding poll
  poll-page r rest ps ids s named (q, answer, same, rows, filled, last, later) =
      rw (named, answer, poll, same, rows, take_page, last)

-- One poll that yields a row, in a collection whose conversion keeps rows.
collect-row :
    (debug : Response → String) (serve : Server) (fuel : ℕ) (st : StreamState) (s : Session)
    (r : Fields) (st' : StreamState) (s' : Session)
    → poll debug serve st s ≡ polled (row r) st' s'
    → {rows : List Fields} {t : Session}
    → try_collect debug serve ok fuel st' s' ≡ some (ok rows, t)
    → try_collect debug serve ok (suc fuel) st s ≡ some (ok (r ∷ rows), t)
unfolding try_collect
collect-row debug serve fuel st s r st' s' p {rows} {t} h = ground (arith, p, h)

module _ (debug : Response → String) (serve : Server) (cursor : String) (page_size : ℕ) where
  -- Against a daemon that serves the pages, with more fuel than there are rows, the collection of a
  -- stream yields its buffered rows and then those of each page, in order. It sends one `sqlmore`
  -- for each page and, the cursor being exhausted, no close.
  pub collect_pages :
      (fuel : ℕ) (rows : List Fields) (pages : List (List Fields)) (ids : IdAllocator) (s : Session)
      → is_empty cursor ≡ false
      → Serves debug serve cursor page_size pages ids s
      → length rows + length (all_rows pages) < fuel
      → try_collect debug serve ok fuel (at rows cursor (no_pages pages) ids page_size) s
        ≡ some (ok (rows ++ all_rows pages), after_pages debug serve cursor page_size pages ids s)
  collect_pages zero rows pages ids s named serves bound = absurd (omega arith)
  collect_pages (suc fuel) (r ∷ rows) pages ids s named serves bound =
      collect-row debug serve fuel _ s r (at rows cursor (no_pages pages) ids page_size) s
        (unfold poll in refl) (collect_pages fuel rows pages ids s named serves (omega arith))
  collect_pages (suc fuel) [] [] ids s named serves bound = unfold try_collect poll in refl
  collect_pages (suc fuel) [] ([] ∷ pages) ids s named serves bound = absurd (serves.4 refl)
  collect_pages (suc fuel) [] ((r ∷ rest) ∷ pages) ids s named serves bound =
      collect-row debug serve fuel _ s r (at rest cursor (no_pages pages) (next ids).1 page_size)
        (asked cursor ids page_size s)
        (poll-page debug serve cursor page_size r rest pages ids s named serves)
        (collect_pages fuel rest pages (next ids).1 (asked cursor ids page_size s) named serves.6
          (omega (arith, length-append rest (all_rows pages))))
