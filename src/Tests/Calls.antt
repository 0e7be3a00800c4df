-- ===== src/Tests/Calls.antt =====
-- Instances for src/query.rs and src/job.rs.
use mapepire_rs.Prelude.{
  ◌≡◌, refl, String, true, false, none, some, [], ◌∷◌, length, arith, Result, ok, err,
}
use mapepire_rs.Prelude.Text.{show_ℕ}
use mapepire_rs.Protocol.Json.{null}
use mapepire_rs.Protocol.Request.{sql_close, sql_more}
use mapepire_rs.Protocol.Response.{Response, cursor_handle}
use mapepire_rs.Protocol.Ids.{next, close_id}
use mapepire_rs.Error.{Error, protocol, zero_page_size, empty_parameter_sets}
use mapepire_rs.Prelude.{leb, if◌then◌else◌}
use mapepire_rs.Client.{Server, Session, next_id}
use mapepire_rs.Query.Options.{ExecuteOptions, default_options, terse_on_wire}
use mapepire_rs.Query.Rows.{Rows, rows_of, accept_rows}
use mapepire_rs.Query.Statement
use mapepire_rs.Query.Statement.{Query, execute_batch}
use mapepire_rs.Query.Stream.{StreamState, drop_stream, poll, try_collect, failed, end, empty_page}
use mapepire_rs.Query.Stream.Pages.{Serves, at, collect_pages}
use mapepire_rs.Query.Stream.Close.{empty_page_halts, after_polls, early_drop_closes}
use mapepire_rs.Job.{execute_request, execute_inner, execute_sets}
use mapepire_rs.Job.Execute.{Owns, execute_inner-Owns, invalid_options_send_nothing}
use mapepire_rs.Job.Batch.{BatchOutcome, batch_outcome}
use mapepire_rs.Tests.{plain, ids_a, new_session, result_of, a_row, paging, empty_pages}

abbrev debug : Response → String
debug r = "response"

served_page : Serves debug (paging true) "c" 5 ((a_row ∷ []) ∷ []) ids_a new_session
unfolding paging next show_ℕ
served_page = (result_of "a-0" (a_row ∷ []) true, refl, refl, refl, (λ e. cc), refl, tt)

collect_pages_example :
    try_collect debug (paging true) ok 3 (at (a_row ∷ []) "c" false ids_a 5) new_session
    ≡ some (ok (a_row ∷ a_row ∷ []), record { ids = ids_a; sent = sql_more "a-0" "c" 5 ∷ [] })
unfolding next show_ℕ
collect_pages_example =
    collect_pages debug (paging true) "c" 5 3 (a_row ∷ []) ((a_row ∷ []) ∷ []) ids_a new_session
      refl served_page (omega arith)

abbrev waiting : StreamState
waiting = record { rows = []; cont_id = some "c"; done = false; ids = ids_a; page_size = 5 }

empty_page_halts_example :
    let p = poll debug empty_pages waiting new_session in
    let again = poll debug empty_pages p.state p.session in
    (p.item ≡ failed empty_page)
    × (p.session.sent ≡ sql_close (close_id "c") "c" ∷ sql_more "a-0" "c" 5 ∷ [])
    × (again.item ≡ end)
    × (drop_stream again.state again.session ≡ p.session)
unfolding empty_pages next show_ℕ
empty_page_halts_example =
    empty_page_halts debug empty_pages new_session "c" ids_a 5 (result_of "a-0" [] false) refl refl
      refl refl refl

abbrev rows_a : Rows
rows_a = record { inner = result_of "a-0" (a_row ∷ []) false; page_size = 5; cursor = some "a-0" }

execute_inner-Owns_example :
    Owns "a-0" 5 rows_a
    × ((execute_inner plain
          (paging false)
          "q"
          none
          (record { rows = some 5; terse = true })
          new_session).1.sent
        ≡ execute_request "a-0" "q" none 5 (some true) ∷ [])
unfolding execute_inner accept_rows rows_of paging next cursor_handle next_id show_ℕ terse_on_wire
execute_inner-Owns_example =
    execute_inner-Owns plain (paging false) "q" none (some 5) true new_session rows_a refl

abbrev prepared : Query
prepared = record { cont_id = some "h"; sql = "q" }

-- It has one result, with an open cursor, and fails from the second request on.
abbrev one_answer : Server
one_answer s request =
    if leb (length s.sent) 0 then paging false s request else err (protocol zero_page_size)

batch_sent :
    (execute_batch debug one_answer prepared ((null ∷ []) ∷ [] ∷ [] ∷ []) new_session).1.sent
    ≡ sql_close (close_id "a-0") "a-0"
      ∷ Statement.execute_request prepared "a-1" (some []) 100 none
      ∷ Statement.execute_request prepared "a-0" (some (null ∷ [])) 100 none
      ∷ []
unfolding execute_batch paging next show_ℕ next_id accept_rows
batch_sent = refl

batch_outcome_example :
    BatchOutcome debug one_answer prepared
      ((null ∷ []) ∷ [] ∷ [] ∷ [])
      new_session
      (execute_batch debug one_answer prepared ((null ∷ []) ∷ [] ∷ [] ∷ []) new_session)
batch_outcome_example =
    batch_outcome debug one_answer prepared ((null ∷ []) ∷ [] ∷ [] ∷ []) new_session

abbrev no_rows : ExecuteOptions
no_rows = record { rows = some 0; terse = false }

abbrev refused : Result Rows Error × Session
refused = (err (protocol zero_page_size), new_session)

abbrev refused_sets : Result Rows Error × Session
refused_sets = (err (protocol empty_parameter_sets), new_session)

invalid_options_send_nothing_example :
    (execute_inner plain (paging true) "q" none no_rows new_session ≡ refused)
    × (execute_sets plain (paging true) "q" ((null ∷ []) ∷ []) no_rows new_session ≡ refused)
    × (Statement.execute_inner debug (paging true) prepared none no_rows new_session ≡ refused)
    × (Statement.execute_sets debug (paging true) prepared ((null ∷ []) ∷ []) no_rows new_session
        ≡ refused)
    × (execute_sets plain (paging true) "q" [] default_options new_session ≡ refused_sets)
    × (Statement.execute_sets debug (paging true) prepared [] default_options new_session
        ≡ refused_sets)
invalid_options_send_nothing_example =
    invalid_options_send_nothing plain (paging true) prepared "q" none (null ∷ []) [] no_rows
      default_options new_session refl

early_drop_closes_example :
    let (state, t) =
      after_polls debug
        (paging true)
        1
        (record {
          rows = a_row ∷ a_row ∷ [];
          cont_id = some "c";
          done = false;
          ids = ids_a;
          page_size = 5;
        })
        new_session in
    (t ≡ new_session) × ((drop_stream state t).sent ≡ sql_close (close_id "c") "c" ∷ [])
early_drop_closes_example =
    early_drop_closes debug (paging true) 1 (a_row ∷ a_row ∷ []) "c" false ids_a 5 new_session
      (omega arith)
