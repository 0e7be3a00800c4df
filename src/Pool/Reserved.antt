-- ===== src/Pool/Reserved.antt =====
-- src/pool/reserved.rs: `Reserved`, one connection held for a transaction, and its part of
-- src/executor.rs.
pub mod Words
pub mod Transaction
pub mod Sentinel
use mapepire_rs.Prelude.{
  ℕ, String, Bool, true, false, ◌&&◌, ◌||◌, Option, none, some, List, if◌then◌else◌, is_ok, u32_max,
  add_u32, sub_u32, Result, ok, err, ◌++◌ as append,
}
use mapepire_rs.Protocol.Json.{Value}
use mapepire_rs.Protocol.Request.{Request}
use mapepire_rs.Protocol.Rendering.{Rendering}
use mapepire_rs.Error.{Error}
use mapepire_rs.Client.{Session, Server, Call, next_id, send_and_forget}
use mapepire_rs.Query.Options.{ExecuteOptions, default_options}
use mapepire_rs.Query.Rows.{Rows}
use mapepire_rs.Job
use mapepire_rs.Pool.Registry.{JobRef}
use Words.{first_word, eq_ignore_ascii_case}

pub data TxState : Type 0 where
  not_started started closed : TxState

-- `conn` is the job's part of the registry, `session` its connection.
pub record Reserved : Type 0 where
  pub conn : JobRef
  pub session : Session
  pub rollback_on_drop : Bool
  pub tx_state : TxState

-- `Reserved::new` marks the connection.
unfoldable pub reserve : JobRef → Session → Reserved
reserve conn session = record {
  conn = record conn { in_flight = u32_max };
  session = session;
  rollback_on_drop = false;
  tx_state = not_started;
}

unfoldable pub rollback_on_drop : Reserved → Reserved
rollback_on_drop c = record c { rollback_on_drop = true }

unfoldable pub observe_sql : String → TxState → TxState
unfolding first_word eq_ignore_ascii_case
observe_sql sql tx =
    let head = first_word sql in
    if eq_ignore_ascii_case head "BEGIN"
    then started
    else if eq_ignore_ascii_case head "COMMIT" || eq_ignore_ascii_case head "ROLLBACK"
    then closed
    else tx

-- A call of the held job, and the same with the state machine told of a success.
unfoldable pub untracked : Call Rows → Reserved → Result Rows Error × Reserved
untracked call c = let (result, s) = call c.session in (result, record c { session = s })

unfoldable pub tracked : String → Call Rows → Reserved → Result Rows Error × Reserved
tracked sql call c =
    let (result, s) = call c.session in
    (
      result,
      record c {
        session = s;
        tx_state = if is_ok result then observe_sql sql c.tx_state else c.tx_state;
      },
    )

module _ (r : Rendering) (serve : Server) where
  unfoldable pub execute : String → Reserved → Result Rows Error × Reserved
  unfolding tracked
  execute sql = tracked sql (Job.execute r serve sql)

  unfoldable pub execute_with : String → List Value → Reserved → Result Rows Error × Reserved
  unfolding tracked
  execute_with sql params = tracked sql (Job.execute_with r serve sql params)

  unfoldable pub execute_opts : String → ExecuteOptions → Reserved → Result Rows Error × Reserved
  unfolding tracked
  execute_opts sql opts = tracked sql (Job.execute_opts r serve sql opts)

  unfoldable pub execute_with_opts :
      String → List Value → ExecuteOptions → Reserved → Result Rows Error × Reserved
  unfolding tracked
  execute_with_opts sql params opts = tracked sql (Job.execute_with_opts r serve sql params opts)

  unfoldable pub begin : Reserved → Result Rows Error × Reserved
  unfolding execute
  begin = execute "BEGIN"

  unfoldable pub commit : Reserved → Result Rows Error × Reserved
  unfolding execute
  commit = execute "COMMIT"

  unfoldable pub rollback : Reserved → Result Rows Error × Reserved
  unfolding execute
  rollback = execute "ROLLBACK"

  -- `Executor::execute` and `Executor::execute_with` for `Reserved` call the job directly; the
  -- other two methods of the trait are the inherent ones.
  unfoldable pub executor_execute : String → Reserved → Result Rows Error × Reserved
  unfolding untracked
  executor_execute sql = untracked (Job.execute r serve sql)

  unfoldable pub executor_execute_with :
      String → List Value → Reserved → Result Rows Error × Reserved
  unfolding untracked
  executor_execute_with sql params = untracked (Job.execute_with r serve sql params)

abbrev pub in_tx : TxState → Bool
in_tx started = true
in_tx _ = false

-- `Request::Sql` for the rollback.
unfoldable pub rollback_request : String → Request
rollback_request id = Request.sql id "ROLLBACK" none none none

send_rollback : Session → Session
unfolding next_id send_and_forget rollback_request
send_rollback s =
    let (id, t) = next_id s in elim id [ ok i ↦ send_and_forget (rollback_request i) t | err e ↦ t ]

-- `Drop for Reserved`: the rollback, then the counter goes to zero.
unfoldable pub drop_reserved : Reserved → JobRef × Session
unfolding send_rollback
drop_reserved c = (
  record c.conn { in_flight = 0 },
  if c.rollback_on_drop && in_tx c.tx_state then send_rollback c.session else c.session,
)

-- The dispatcher of the held connection takes a request, and settles one.
unfoldable pub request_taken : Reserved → Reserved
unfolding add_u32
request_taken c = record c { conn = record c.conn { in_flight = add_u32 c.conn.in_flight } }

unfoldable pub request_settled : Reserved → Reserved
unfolding sub_u32
request_settled c = record c { conn = record c.conn { in_flight = sub_u32 c.conn.in_flight } }
