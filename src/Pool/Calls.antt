-- ===== src/Pool/Calls.antt =====
-- src/pool/runtime.rs: the calls of `Pool`. The pool of deadpool is a parameter: its checkout yields
-- a job or an error, its return of an object ends one.
pub mod Answers
pub mod Traffic
pub mod Isolation
use Prim.Native.String.{◌++◌}
use mapepire_rs.Prelude.{
  ℕ, String, Bool, Option, none, some, List, [], ◌∷◌, if◌then◌else◌, unwrap_or, ◌==◌, u32_max,
  Result, ok, err, map,
}
use mapepire_rs.Protocol.Json.{Value}
use mapepire_rs.Protocol.Rendering.{Rendering}
use mapepire_rs.Error.{Error, pool_exhausted, internal}
use mapepire_rs.Client.{Session, Server, Call}
use mapepire_rs.Query.Options.{ExecuteOptions, default_options}
use mapepire_rs.Query.Rows.{Rows}
use mapepire_rs.Job
use mapepire_rs.Pool.Registry.{JobRef}
use mapepire_rs.Pool.Reserved.{Reserved, reserve}
use mapepire_rs.Pool.Routing.{Tier, try_idle, least_busy_scan, fair_queue, route}

-- `jobs` holds the session of each job, by its number.
pub record Pool : Type 0 where
  pub registry : List JobRef
  pub size : ℕ
  pub acquire_timeout : Option ℕ
  pub default_page_size : ℕ
  pub jobs : ℕ → Session

-- `deadpool::managed::PoolError`; `other` holds the text of the remaining variants.
pub data PoolError : Type 0 where
  timeout : PoolError
  backend : Error → PoolError
  other : String → PoolError

pub record Deadpool : Type 0 where
  pub get : Pool → Result ℕ PoolError × Pool
  pub put_back : ℕ → Pool → Pool

unfoldable pub pool_opts : Pool → ExecuteOptions → ExecuteOptions
pool_opts p opts = elim opts.rows [
  | none ↦ record opts { rows = some p.default_page_size }
  | some n ↦ opts
]

-- The text of the error is `pool: ` and that of deadpool; `unwrap_or_default` is zero.
unfoldable pub checkout_error : Option ℕ → PoolError → Error
checkout_error acquire_timeout timeout = pool_exhausted (unwrap_or acquire_timeout 0)
checkout_error acquire_timeout (backend e) = e
checkout_error acquire_timeout (other text) = internal ("pool: " ++ text)

unfoldable pub set_session : ℕ → Session → Pool → Pool
set_session job s p = record p { jobs = λ k. if k == job then s else p.jobs k }

-- A call of one job of the pool.
unfoldable pub on_job : {A : Type 0} → ℕ → Call A → Pool → Result A Error × Pool
unfolding set_session
on_job job call p = let (result, s) = call (p.jobs job) in (result, set_session job s p)

module _ (d : Deadpool) where
  unfoldable pub get_or_timeout : Pool → Result ℕ Error × Pool
  unfolding checkout_error
  get_or_timeout p =
      let (checked, q) = d.get p in
      elim checked [ ok job ↦ (ok job, q) | err e ↦ (err (checkout_error p.acquire_timeout e), q) ]

  -- The third tier: the object goes back to the pool when the call is over.
  unfoldable pub on_queue : {A : Type 0} → (ℕ → Call A) → Pool → Result A Error × Pool
  unfolding get_or_timeout on_job
  on_queue call p =
      let (checked, q) = get_or_timeout p in
      elim checked [
        | ok job ↦ let (result, q') = on_job job (call job) q in (result, d.put_back job q')
        | err e ↦ (err e, q)
      ]

  on_tier : {A : Type 0} → (ℕ → Call A) → Tier → Pool → Result A Error × Pool
  unfolding on_queue on_job
  on_tier call (try_idle j) p = on_job j.job (call j.job) p
  on_tier call (least_busy_scan j) p = on_job j.job (call j.job) p
  on_tier call fair_queue p = on_queue call p

  -- The scans leave the registry without its dead entries.
  unfoldable pub dispatch : {A : Type 0} → (ℕ → Call A) → Pool → Result A Error × Pool
  unfolding on_tier
  dispatch call p =
      let (tier, live) = route p.size p.registry in on_tier call tier (record p { registry = live })

  module _ (r : Rendering) (serve : ℕ → Server) where
    unfoldable pub execute_opts : String → ExecuteOptions → Pool → Result Rows Error × Pool
    unfolding dispatch pool_opts
    execute_opts sql opts p =
        dispatch (λ job. Job.execute_opts r (serve job) sql (pool_opts p opts)) p

    unfoldable pub execute_with_opts :
        String → List Value → ExecuteOptions → Pool → Result Rows Error × Pool
    unfolding dispatch pool_opts
    execute_with_opts sql params opts p =
        dispatch (λ job. Job.execute_with_opts r (serve job) sql params (pool_opts p opts)) p

    unfoldable pub execute : String → Pool → Result Rows Error × Pool
    unfolding dispatch pool_opts
    execute sql p =
        dispatch (λ job. Job.execute_opts r (serve job) sql (pool_opts p default_options)) p

    unfoldable pub execute_with : String → List Value → Pool → Result Rows Error × Pool
    unfolding dispatch pool_opts
    execute_with sql params p =
        dispatch
          (λ job. Job.execute_with_opts r (serve job) sql params (pool_opts p default_options)) p

-- The entry of a job. `JobManager::create` tracks each job that deadpool hands out, so a job without
-- an entry is one that it has just made.
abbrev find_job : ℕ → List JobRef → JobRef
find_job job [] = record { job = job; strong = 1; in_flight = 0 }
find_job job (w ∷ ws) = let rest = find_job job ws in if w.job == job then w else rest

-- The counter of a job is set.
unfoldable pub mark : ℕ → ℕ → List JobRef → List JobRef
mark job n ws = map (λ w. if w.job == job then record w { in_flight = n } else w) ws

-- `Pool::acquire`, with the job's counter set to the mark of a reserved connection.
unfoldable pub acquire : Deadpool → Pool → Result Reserved Error × Pool
unfolding get_or_timeout reserve mark
acquire d p =
    let (checked, q) = get_or_timeout d p in
    elim checked [
      | ok job ↦ (
        ok (reserve (find_job job q.registry) (q.jobs job)),
        record q { registry = mark job u32_max q.registry },
      )
      | err e ↦ (err e, q)
    ]
