-- ===== src/Query/Stream/Termination.antt =====
-- src/query.rs: when the collection of a stream ends. A daemon may send pages without end; the
-- collection ends against every daemon that stops sending rows.
use mapepire_rs.Prelude.{
  ℕ, ◌≡◌, ◌≢◌, refl, subst, Bool-cases, String, true, false, some, List, [], ◌∷◌, length, arith,
  Result, ok, err, inl, inr,
}
use mapepire_rs.Prelude.Text.{str_eq}
use mapepire_rs.Protocol.Json.{Fields}
use mapepire_rs.Protocol.Request.{sql_more}
use mapepire_rs.Protocol.Response.{
  QueryResult, Response, connected, pong, exited, query_result, prepared_statement, sql_closed,
  cl_result, version, db_job, config_set, trace_data, dove_result, error, non_empty,
}
use mapepire_rs.Protocol.Ids.{next}
use mapepire_rs.Error.{Error}
use mapepire_rs.Client.{Session, Server}
use mapepire_rs.Query.Stream.{StreamState, take_page, on_answer, poll, halt}
use mapepire_rs.Query.Stream.Ending.{
  Ends, IsOver, Ends-over, Ends-poll, emptied, Ends-rows, turned, asked, HasNoRows, Yields, over,
  no_cursor, refused, page,
}

module _ (debug : Response → String) (serve : Server) {T : Type 0}
    (convert : Fields → Result T Error) where
  on_answer-IsOver :
      (id : String) (answer : Result Response Error) (state : StreamState) (s : Session)
      → HasNoRows debug serve convert id answer
      → IsOver debug serve convert (on_answer debug serve id answer state s).item
  unfolding on_answer take_page halt
  on_answer-IsOver id (ok (query_result q)) state s h = elim h [
    | inl differ ↦ rw (differ) tt
    | inr empty ↦ elim (Bool-cases (str_eq q.id id)) [
      | inr differ ↦ rw (differ) tt
      | inl same ↦ elim (Bool-cases q.is_done) [
        | inl d ↦ rw (same, empty, take_page, d) tt
        | inr d ↦ rw (same, empty, take_page, d) tt
      ]
    ]
  ]
  on_answer-IsOver id (ok (connected i v j)) state s h = tt
  on_answer-IsOver id (ok (pong i)) state s h = tt
  on_answer-IsOver id (ok (exited i)) state s h = tt
  on_answer-IsOver id (ok (prepared_statement i b c x)) state s h = tt
  on_answer-IsOver id (ok (sql_closed i b)) state s h = tt
  on_answer-IsOver id (ok (cl_result i b m)) state s h = tt
  on_answer-IsOver id (ok (version i b t)) state s h = tt
  on_answer-IsOver id (ok (db_job i b j)) state s h = tt
  on_answer-IsOver id (ok (config_set i b)) state s h = tt
  on_answer-IsOver id (ok (trace_data i b t)) state s h = tt
  on_answer-IsOver id (ok (dove_result i b v m)) state s h = tt
  on_answer-IsOver id (ok (error e)) state s h = tt
  on_answer-IsOver id (err e) state s h = tt

  Ends-buffer :
      (state : StreamState) (s : Session)
      → IsOver debug serve convert (poll debug serve (emptied debug serve convert state) s).item
      → Ends debug serve convert (length state.rows) state s
  Ends-buffer state s h =
      subst (λ n. Ends debug serve convert n state s) (omega arith)
        (Ends-rows debug serve convert 0 state.rows state s
          (Ends-over debug serve convert (emptied debug serve convert state) s _ refl h))

  poll-page :
      (state : StreamState) (s : Session) (cursor : String) (q : QueryResult)
      → state.done ≡ false
      → non_empty state.cont_id ≡ some cursor
      → serve s (sql_more (next state.ids).0 cursor state.page_size) ≡ ok (query_result q)
      → str_eq q.id (next state.ids).0 ≡ true
      → q.rows ≢ []
      → poll debug serve (emptied debug serve convert state) s
        ≡ poll debug serve
            (turned debug serve convert state q)
            (asked debug serve convert cursor state s)
  unfolding poll take_page
  poll-page state s cursor q going named answer same filled = go q.rows refl
    where
      go :
          (rows : List Fields)
          → q.rows ≡ rows
          → poll debug serve (emptied debug serve convert state) s
            ≡ poll debug serve
                (turned debug serve convert state q)
                (asked debug serve convert cursor state s)
      go [] e = absurd (filled e)
      go (r ∷ rest) e = rw (poll, going, named, answer, same, e) refl

  -- Against any daemon, as long as the pages that it sends end, the collection of a stream ends,
  -- with a result that is the same for every fuel above the number of rows that come.
  pub Yields-Ends :
      (state : StreamState) (s : Session) (n : ℕ)
      → Yields debug serve convert state s n
      → Ends debug serve convert n state s
  unfolding poll
  Yields-Ends state s _ (over _ _ finished) = Ends-buffer state s (rw (finished, poll) tt)
  Yields-Ends state s _ (no_cursor _ _ absent) =
      Ends-buffer state s
        (elim (Bool-cases state.done) [ inl d ↦ rw (poll, d) tt | inr d ↦ rw (poll, d, absent) tt ])
  Yields-Ends state s _ (refused _ _ cursor named h) =
      Ends-buffer state s (elim (Bool-cases state.done) [
        | inl d ↦ rw (poll, d) tt
        | inr d ↦ rw (poll, d, named) (on_answer-IsOver (next state.ids).0 _ _ _ h)
      ])
  Yields-Ends state s _ (page _ _ cursor q n going named answer same filled more) =
      Ends-rows debug serve convert n state.rows state s (
        Ends-poll debug serve convert n (emptied debug serve convert state)
          (turned debug serve convert state q) s (asked debug serve convert cursor state s)
          (poll-page state s cursor q going named answer same filled)
          (Yields-Ends (turned debug serve convert state q)
            (asked debug serve convert cursor state s) n more))
