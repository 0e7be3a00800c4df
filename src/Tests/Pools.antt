-- ===== src/Tests/Pools.antt =====
-- Instances for src/pool.
use mapepire_rs.Prelude.{
  ◌≢◌, ℕ, suc, ◌+◌, ◌*◌, ◌≤◌, ◌≡◌, refl, String, true, false, Option, none, some, List, [], ◌∷◌,
  arith, ok, u32_max, if◌then◌else◌,
}
use mapepire_rs.Prelude.Text.{show_ℕ}
use mapepire_rs.Protocol.Json.{Value}
use mapepire_rs.Protocol.Response.{cursor_handle}
use mapepire_rs.Protocol.Ids.{next}
use mapepire_rs.Client.{Server, next_id}
use mapepire_rs.Query.Options.{default_options, terse_on_wire}
use mapepire_rs.Query.Rows.{Rows, rows_of, accept_rows}
use mapepire_rs.Job
use mapepire_rs.Job.{execute_request}
use mapepire_rs.Job.Execute.{Owns}
use mapepire_rs.Pool.Registry.{JobRef, peek_idle}
use mapepire_rs.Pool.Registry.Scan.{FindsIdle, peek_idle_finds}
use mapepire_rs.Pool.Routing.{route, pick_unsaturated}
use mapepire_rs.Pool.Routing.Choice.{Picks, pick_unsaturated_least}
use mapepire_rs.Pool.Calls.Traffic.{Traffic, settles, writes, joins, scans, on_traffic, IsHeld}
use mapepire_rs.Pool.Calls.Isolation.{later, quiet_hold_is_spared}
use mapepire_rs.Pool.Calls.{
  acquire, dispatch, get_or_timeout, Pool, Deadpool, PoolError, execute_opts,
}
use mapepire_rs.Pool.Calls.Answers.{pool_execute-Owns}
use mapepire_rs.Pool.Reserved.{reserve, rollback_on_drop, drop_reserved, rollback_request}
use mapepire_rs.Pool.Reserved.Transaction.{
  Stmt, simple, direct, run_all, leaves_open, rollback_iff_open, run_executors,
  executor_never_rolls_back,
}
use mapepire_rs.Pool.Reserved.Sentinel.{busy, settled, sentinel_wraps, early_drop_miscounts}
use mapepire_rs.Pool.Reaper.{second, reaper_period, IdleObject, reap, reaped_in_time}
use mapepire_rs.Pool.Builder.{open_eagerly, eager_opens_one}
use mapepire_rs.Tests.{plain, new_session, result_of, a_row, paging}

abbrev job_ref : ℕ → ℕ → ℕ → JobRef
job_ref job strong in_flight = record { job = job; strong = strong; in_flight = in_flight }

-- A job at work, one that is reserved, a dead one and an idle one.
abbrev refs : List JobRef
refs = job_ref 0 2 3 ∷ job_ref 1 1 u32_max ∷ job_ref 2 0 0 ∷ job_ref 3 1 0 ∷ []

found : (peek_idle refs).0 ≡ some (job_ref 3 2 0)
unfolding peek_idle
found = refl

peek_idle_finds_example : FindsIdle (some (job_ref 3 2 0)) refs
unfolding peek_idle
peek_idle_finds_example = peek_idle_finds refs

pick_unsaturated_least_example : Picks (some (job_ref 3 2 0)) refs
unfolding pick_unsaturated
pick_unsaturated_least_example = pick_unsaturated_least 4 refs (omega arith)

-- A deadpool that hands out job 0 and forgets what comes back.
abbrev one_job : Deadpool
one_job = record { get = λ p. (ok 0, p); put_back = λ job p. p }

abbrev sample_pool : Pool
sample_pool = record {
  registry = refs;
  size = 4;
  acquire_timeout = none;
  default_page_size = 50;
  jobs = λ k. new_session;
}

abbrev pool_rows : Rows
pool_rows = record {
  inner = result_of "a-0" (a_row ∷ []) false;
  page_size = 50;
  cursor = some "a-0";
}

abbrev servers : ℕ → Server
servers job = paging false

pool_execute-Owns_example :
    let after = (execute_opts one_job plain servers "q" default_options sample_pool).1 in
    Owns "a-0" 50 pool_rows
    × ((after.jobs 3).sent ≡ execute_request "a-0" "q" none 50 none ∷ [])
    × (after.jobs 1 ≡ new_session)
unfolding execute_opts route Job.execute_opts accept_rows rows_of paging next next_id cursor_handle
    show_ℕ terse_on_wire
pool_execute-Owns_example =
    pool_execute-Owns one_job plain servers "q" none false sample_pool (job_ref 3 2 0) pool_rows 1
      refl (omega arith) refl

abbrev begin_work : List Stmt
begin_work = simple " Begin work" ∷ direct "UPDATE t" default_options ∷ []

rollback_iff_open_example :
    let (h, c) =
      run_all plain
        (paging true)
        begin_work
        (rollback_on_drop (reserve (job_ref 1 1 0) new_session)) in
    let (freed, t) = drop_reserved c in
    (freed.in_flight ≡ 0)
    × (t.sent ≡ (
        if leaves_open h
        then rollback_request (next c.session.ids).0 ∷ c.session.sent
        else c.session.sent))
rollback_iff_open_example =
    rollback_iff_open plain (paging true) begin_work (job_ref 1 1 0) new_session true

abbrev begin_in_trait : List (String × Option (List Value))
begin_in_trait = ("BEGIN", none) ∷ []

executor_never_rolls_back_example :
    let c =
      run_executors plain
        (paging true)
        begin_in_trait
        (rollback_on_drop (reserve (job_ref 1 1 0) new_session)) in
    (drop_reserved c).1.sent ≡ c.session.sent
executor_never_rolls_back_example =
    executor_never_rolls_back plain (paging true) begin_in_trait (job_ref 1 1 0) new_session

sentinel_wraps_example :
    let quiet = (reserve (job_ref 1 1 0) new_session).conn in
    let taken = (busy 1 (reserve (job_ref 1 1 0) new_session)).conn in
    ((peek_idle (quiet ∷ refs)).0 ≡ (peek_idle refs).0)
    × ((peek_idle (taken ∷ refs)).0 ≡ some (job_ref 1 2 0))
sentinel_wraps_example = sentinel_wraps (job_ref 1 1 0) new_session refs refl

early_drop_miscounts_example :
    let freed = (drop_reserved (busy 1 (reserve (job_ref 1 1 0) new_session))).0 in
    let c = record (reserve (job_ref 1 1 0) new_session) { conn = freed } in
    (settled 1 c).conn.in_flight ≡ u32_max
early_drop_miscounts_example =
    early_drop_miscounts 1 (job_ref 1 1 0) new_session (omega arith) (omega arith)

abbrev idle_object : IdleObject
idle_object = record { job = 3; last_use = 7 }

reaped_in_time_example :
    (n : ℕ) × (reap (8 * second) (2 * second) n 1 (idle_object ∷ []) ≡ idle_object ∷ [])
    × (reap (8 * second) (2 * second) (suc n) 1 (idle_object ∷ []) ≡ [])
    × (7 + 8 * second ≤ suc n * (2 * second))
    × (4 * (suc n * (2 * second)) ≤ 4 * 7 + 5 * (8 * second))
unfolding reaper_period
reaped_in_time_example = reaped_in_time (8 * second) (2 * second) idle_object refl (omega arith)

abbrev show : PoolError → String
show e = "error"

reuse :
    (q : Pool)
    → Unit {0}
    → (job : ℕ) × (q' : Pool) × (one_job.get q ≡ (ok job, q'))
      × Unit {0}
      × ((one_job.put_back job q').size ≡ q.size)
reuse q i = (0, q, refl, tt, refl)

eager_opens_one_example :
    (out : Pool) × (open_eagerly show one_job 4 sample_pool ≡ ok out) × (out.size ≡ 4)
eager_opens_one_example =
    eager_opens_one show one_job (λ q. Unit {0}) reuse 3 sample_pool sample_pool 0 refl tt

abbrev zero_pool : Pool
zero_pool = record sample_pool { default_page_size = 0 }

abbrev held_job : ℕ
held_job = 0

-- The holder has a request answered while another call runs on job 3 and a connection is added.
abbrev traffic : List Traffic
traffic = scans 4 ∷ writes 0 ∷ writes 3 ∷ joins 7 ∷ settles 0 ∷ settles 3 ∷ []

traffic-IsHeld : IsHeld 0 traffic 0
traffic-IsHeld = (tt, (tt, (tt, (λ e. omega arith, (λ e. omega arith, (λ e. omega arith, tt))))))

quiet_hold_is_spared_example :
    let x = later traffic 5 (λ k. new_session) (acquire one_job sample_pool).1 in
    (◌≢◌ {A = ℕ} 3 held_job)
    × ((dispatch one_job (λ job. Job.ping plain (servers job)) x).1.jobs 0 ≡ new_session)
unfolding get_or_timeout acquire route on_traffic
quiet_hold_is_spared_example =
    quiet_hold_is_spared one_job sample_pool sample_pool 0 traffic 5 (λ k. new_session)
      (λ job. Job.ping plain (servers job)) (job_ref 3 2 0) refl traffic-IsHeld refl refl
