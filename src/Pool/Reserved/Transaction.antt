-- ===== src/Pool/Reserved/Transaction.antt =====
-- src/pool/reserved.rs and src/executor.rs: when the destructor of a `Reserved` rolls back.
use mapepire_rs.Prelude.{
  ◌≡◌, refl, ◌∙◌, String, Bool, true, false, ◌&&◌, Option, none, some, List, [], ◌∷◌, arith,
  if◌then◌else◌, unwrap_or, is_ok, Result,
}
use mapepire_rs.Protocol.Json.{Value}
use mapepire_rs.Protocol.Rendering.{Rendering}
use mapepire_rs.Protocol.Ids.{next}
use mapepire_rs.Error.{Error}
use mapepire_rs.Client.{Session, Server, next_id, send_and_forget}
use mapepire_rs.Query.Options.{ExecuteOptions}
use mapepire_rs.Query.Rows.{Rows}
use mapepire_rs.Pool.Registry.{JobRef}
use mapepire_rs.Pool.Reserved.Words.{first_word, eq_ignore_ascii_case}
use mapepire_rs.Pool.Reserved.{
  TxState, not_started, started, closed, Reserved, reserve, rollback_on_drop, observe_sql, tracked,
  untracked, execute, execute_with, execute_opts, execute_with_opts, executor_execute,
  executor_execute_with, rollback_request, drop_reserved,
}

-- A statement run with `execute` or `execute_opts`, or bound to parameters with `execute_with` or
-- `execute_with_opts`. The methods `begin`, `commit` and `rollback` are `simple` statements.
pub data Stmt : Type 0 where
  simple : (sql : String) → Stmt
  simple_with : (sql : String) (params : List Value) → Stmt
  direct : (sql : String) (opts : ExecuteOptions) → Stmt
  bound : (sql : String) (params : List Value) (opts : ExecuteOptions) → Stmt

-- The state that a statement leads to by its first word, if it controls the transaction.
unfoldable pub control : String → Option TxState
unfolding first_word eq_ignore_ascii_case
control sql =
    if eq_ignore_ascii_case (first_word sql) "BEGIN"
    then some started
    else if eq_ignore_ascii_case (first_word sql) "COMMIT"
    then some closed
    else if eq_ignore_ascii_case (first_word sql) "ROLLBACK"
    then some closed
    else none

-- A statement with whether it succeeded.
abbrev pub History : Type 0
History = List (String × Bool)

-- The state that the last successful control statement of a history leads to.
unfoldable pub last_control : History → Option TxState
unfolding control
last_control [] = none
last_control ((sql, success) ∷ h) =
    let rest = last_control h in
    elim rest [ some t ↦ some t | none ↦ if success then control sql else none ]

-- The transaction that a history leaves open.
abbrev pub leaves_open : History → Bool
leaves_open h = elim (last_control h) [ some started ↦ true | _ ↦ false ]

observe_sql-control :
    (sql : String) (tx : TxState) → observe_sql sql tx ≡ unwrap_or (control sql) tx
unfolding observe_sql control
observe_sql-control sql tx = ground arith

-- The destructor at a known state.
freed_after :
    (c : Reserved) (last : Option TxState) (opt_in : Bool)
    → (c.tx_state ≡ unwrap_or last not_started) × (c.rollback_on_drop ≡ opt_in)
    → let (freed, t) = drop_reserved c in
      (freed.in_flight ≡ 0)
      × (t.sent ≡ (
          if opt_in && elim last [ some started ↦ true | _ ↦ false ]
          then rollback_request (next c.session.ids).0 ∷ c.session.sent
          else c.session.sent))
unfolding drop_reserved next_id send_and_forget
freed_after c none opt_in h = (refl, ground (arith, h.0, h.1))
freed_after c (some not_started) opt_in h = (refl, ground (arith, h.0, h.1))
freed_after c (some started) opt_in h = (refl, ground (arith, h.0, h.1))
freed_after c (some closed) opt_in h = (refl, ground (arith, h.0, h.1))

later :
    (rest first : Option TxState) (c : TxState) (success : Bool) {a b : TxState}
    → a ≡ unwrap_or rest b
    → b ≡ (if success then unwrap_or first c else c)
    → a ≡ unwrap_or (elim rest [ some t ↦ some t | none ↦ if success then first else none ]) c
later none first c true p q = p ∙ q
later none first c false p q = p ∙ q
later (some t) first c success p q = p

module _ (r : Rendering) (serve : Server) where
  unfoldable pub run_stmt : Stmt → Reserved → Result Rows Error × Reserved
  run_stmt (simple sql) = execute r serve sql
  run_stmt (simple_with sql params) = execute_with r serve sql params
  run_stmt (direct sql opts) = execute_opts r serve sql opts
  run_stmt (bound sql params opts) = execute_with_opts r serve sql params opts

  abbrev sql_of : Stmt → String
  sql_of (simple sql) = sql
  sql_of (simple_with sql params) = sql
  sql_of (direct sql opts) = sql
  sql_of (bound sql params opts) = sql

  unfoldable pub run_all : List Stmt → Reserved → History × Reserved
  unfolding run_stmt
  run_all [] c = ([], c)
  run_all (q ∷ qs) c =
      let (result, c') = run_stmt q c in
      let (h, c'') = run_all qs c' in ((sql_of q, is_ok result) ∷ h, c'')

  tx_state-run_stmt :
      (q : Stmt) (c : Reserved)
      → let (result, c') = run_stmt q c in
        (c'.tx_state
          ≡ (if is_ok result then unwrap_or (control (sql_of q)) c.tx_state else c.tx_state))
        × (c'.rollback_on_drop ≡ c.rollback_on_drop)
  unfolding run_stmt execute execute_with execute_opts execute_with_opts tracked
  tx_state-run_stmt (simple sql) c = (rw (observe_sql-control sql c.tx_state) refl, refl)
  tx_state-run_stmt (simple_with sql params) c =
      (rw (observe_sql-control sql c.tx_state) refl, refl)
  tx_state-run_stmt (direct sql opts) c = (rw (observe_sql-control sql c.tx_state) refl, refl)
  tx_state-run_stmt (bound sql params opts) c = (rw (observe_sql-control sql c.tx_state) refl, refl)

  tx_state-run_all :
      (qs : List Stmt) (c : Reserved)
      → let (h, c') = run_all qs c in
        (c'.tx_state ≡ unwrap_or (last_control h) c.tx_state)
        × (c'.rollback_on_drop ≡ c.rollback_on_drop)
  unfolding run_all last_control
  tx_state-run_all [] c = (refl, refl)
  tx_state-run_all (q ∷ qs) c =
      let rest = tx_state-run_all qs (run_stmt q c).1 in
      let first = tx_state-run_stmt q c in
      (
        later (last_control (run_all qs (run_stmt q c).1).0) (control (sql_of q)) c.tx_state
            (is_ok (run_stmt q c).0) rest.0 first.0,
        rest.1 ∙ first.1,
      )

  -- A reserved connection that runs statements through its own methods and is then dropped sends a
  -- ROLLBACK, under a fresh id, exactly when the caller opted in and the last successful statement
  -- that begins or ends a transaction began one. The connection is routable again.
  pub rollback_iff_open :
      (qs : List Stmt) (conn : JobRef) (s : Session) (opt_in : Bool)
      → let fresh = reserve conn s in
        let (h, c) = run_all qs (if opt_in then rollback_on_drop fresh else fresh) in
        let (freed, t) = drop_reserved c in
        (freed.in_flight ≡ 0)
        × (t.sent ≡ (
            if opt_in && leaves_open h
            then rollback_request (next c.session.ids).0 ∷ c.session.sent
            else c.session.sent))
  unfolding reserve rollback_on_drop
  rollback_iff_open qs conn s true =
      freed_after (run_all qs (rollback_on_drop (reserve conn s))).1
        (last_control (run_all qs (rollback_on_drop (reserve conn s))).0) true
        (tx_state-run_all qs (rollback_on_drop (reserve conn s)))
  rollback_iff_open qs conn s false =
      freed_after (run_all qs (reserve conn s)).1 (last_control (run_all qs (reserve conn s)).0)
        false (tx_state-run_all qs (reserve conn s))

  -- A statement run through the trait `Executor` without options.
  unfoldable pub run_executor :
      String × Option (List Value) → Reserved → Result Rows Error × Reserved
  run_executor (sql, none) = executor_execute r serve sql
  run_executor (sql, some params) = executor_execute_with r serve sql params

  unfoldable pub run_executors : List (String × Option (List Value)) → Reserved → Reserved
  unfolding run_executor
  run_executors [] c = c
  run_executors (q ∷ qs) c = run_executors qs (run_executor q c).1

  run_executor-state :
      (q : String × Option (List Value)) (c : Reserved)
      → ((run_executor q c).1.tx_state ≡ c.tx_state)
        × ((run_executor q c).1.rollback_on_drop ≡ c.rollback_on_drop)
  unfolding run_executor executor_execute executor_execute_with untracked
  run_executor-state (sql, none) c = (refl, refl)
  run_executor-state (sql, some params) c = (refl, refl)

  run_executors-state :
      (qs : List (String × Option (List Value))) (c : Reserved)
      → ((run_executors qs c).tx_state ≡ c.tx_state)
        × ((run_executors qs c).rollback_on_drop ≡ c.rollback_on_drop)
  unfolding run_executors
  run_executors-state [] c = (refl, refl)
  run_executors-state (q ∷ qs) c =
      let rest = run_executors-state qs (run_executor q c).1 in
      let first = run_executor-state q c in (rest.0 ∙ first.0, rest.1 ∙ first.1)

  -- Statements run through the trait's `execute` and `execute_with`, a BEGIN included, are not seen
  -- by the state machine: a fresh reserved connection that opted in sends no ROLLBACK after them.
  pub executor_never_rolls_back :
      (qs : List (String × Option (List Value))) (conn : JobRef) (s : Session)
      → let c = run_executors qs (rollback_on_drop (reserve conn s)) in
        (drop_reserved c).1.sent ≡ c.session.sent
  unfolding reserve rollback_on_drop
  executor_never_rolls_back qs conn s =
      (freed_after (run_executors qs (rollback_on_drop (reserve conn s))) none true
        (run_executors-state qs (rollback_on_drop (reserve conn s)))).1
