-- ===== src/Query/Statement.antt =====
-- src/query.rs: `Query`, a prepared statement.
use mapepire_rs.Prelude.{ℕ, String, Bool, Option, none, some, List, [], ◌∷◌, ◌++◌, ok, err, map_opt}
use mapepire_rs.Protocol.Json.{Value}
use mapepire_rs.Protocol.Request.{Request, execute, prepare_sql_execute}
use mapepire_rs.Protocol.Response.{Response, non_empty}
use mapepire_rs.Client.{Session, Server, Call, ◌>>=◌, lift, next_id, send}
use mapepire_rs.Query.Options.{
  ExecuteOptions, default_options, resolved_rows, terse_on_wire, owned_parameter_sets,
}
use mapepire_rs.Query.Rows.{Rows, accept_rows, spawn_close, drop_rows}

pub record Query : Type 0 where
  pub cont_id : Option String
  pub sql : String

unfoldable pub server_handle : Query → Option String
server_handle q = non_empty q.cont_id

-- `Drop for Query`.
unfoldable pub drop_query : Query → Session → Session
unfolding server_handle spawn_close
drop_query q s = elim (server_handle q) [ none ↦ s | some cont_id ↦ spawn_close cont_id s ]

unfoldable pub execute_request : Query → String → Option (List Value) → ℕ → Option Bool → Request
unfolding server_handle
execute_request q id params page_size terse = elim (server_handle q) [
  | some cont_id ↦ execute id cont_id params (some page_size) terse
  | none ↦ prepare_sql_execute id q.sql (map_opt (λ p. p ∷ []) params) (some page_size) terse
]

-- A vector of rows is dropped.
unfoldable pub drop_each : List Rows → Session → Session
unfolding drop_rows
drop_each [] s = s
drop_each (rows ∷ out) s = drop_each out (drop_rows rows s)

module _ (debug : Response → String) (serve : Server) where
  unfoldable pub execute_inner : Query → Option (List Value) → ExecuteOptions → Call Rows
  unfolding resolved_rows terse_on_wire send execute_request
  execute_inner q params opts = do
    page_size ← lift (resolved_rows opts)
    id ← next_id
    response ← send serve (execute_request q id params page_size (terse_on_wire opts))
    lift (accept_rows debug id page_size response)

  unfoldable pub execute_query : Query → Call Rows
  unfolding execute_inner
  execute_query q = execute_inner q none default_options

  unfoldable pub execute_opts : Query → ExecuteOptions → Call Rows
  unfolding execute_inner
  execute_opts q opts = execute_inner q none opts

  unfoldable pub execute_with : Query → List Value → Call Rows
  unfolding execute_inner
  execute_with q params = execute_inner q (some params) default_options

  unfoldable pub execute_with_opts : Query → List Value → ExecuteOptions → Call Rows
  unfolding execute_inner
  execute_with_opts q params opts = execute_inner q (some params) opts

  -- One execution after the other; `out` holds the rows of those that are over. The first failure
  -- ends the loop and drops them, the first one first.
  unfoldable pub batch_loop : Query → List Rows → List (List Value) → Call (List Rows)
  unfolding execute_with drop_each
  batch_loop q out [] s = (ok out, s)
  batch_loop q out (params ∷ batches) s =
      let (result, t) = execute_with q params s in
      elim result [
        | ok rows ↦ batch_loop q (out ++ rows ∷ []) batches t
        | err e ↦ (err e, drop_each out t)
      ]

  unfoldable pub execute_batch : Query → List (List Value) → Call (List Rows)
  unfolding batch_loop
  execute_batch q batches = batch_loop q [] batches

  unfoldable pub execute_sets : Query → List (List Value) → ExecuteOptions → Call Rows
  unfolding owned_parameter_sets resolved_rows terse_on_wire send
  execute_sets q sets opts = do
    parameters ← lift (owned_parameter_sets sets)
    page_size ← lift (resolved_rows opts)
    id ← next_id
    response ←
        send serve
          (prepare_sql_execute id q.sql (some parameters) (some page_size) (terse_on_wire opts))
    lift (accept_rows debug id page_size response)
