-- ===== src/Pool/Executor.antt =====
-- src/executor.rs: the trait `Executor` as an interface, and its three implementations. A method is a
-- function of the state of what runs the statement.
use mapepire_rs.Prelude.{ℕ, ◌≡◌, refl, String, List, Result}
use mapepire_rs.Protocol.Json.{Value}
use mapepire_rs.Protocol.Rendering.{Rendering}
use mapepire_rs.Error.{Error}
use mapepire_rs.Client.{Session, Server}
use mapepire_rs.Query.Options.{ExecuteOptions, default_options}
use mapepire_rs.Query.Rows.{Rows}
use mapepire_rs.Job
use mapepire_rs.Pool.Calls
use mapepire_rs.Pool.Calls.{Pool, Deadpool}
use mapepire_rs.Pool.Reserved as Held
use mapepire_rs.Pool.Reserved.{Reserved}

pub record Executor (S : Type 0) : Type 0 where
  pub execute : String → S → Result Rows Error × S
  pub execute_with : String → List Value → S → Result Rows Error × S
  pub execute_opts : String → ExecuteOptions → S → Result Rows Error × S
  pub execute_with_opts : String → List Value → ExecuteOptions → S → Result Rows Error × S

module _ (r : Rendering) (serve : Server) where
  unfoldable pub for_job : Executor Session
  for_job = record {
    execute = Job.execute r serve;
    execute_with = Job.execute_with r serve;
    execute_opts = Job.execute_opts r serve;
    execute_with_opts = Job.execute_with_opts r serve;
  }

  unfoldable pub for_reserved : Executor Reserved
  for_reserved = record {
    execute = Held.executor_execute r serve;
    execute_with = Held.executor_execute_with r serve;
    execute_opts = Held.execute_opts r serve;
    execute_with_opts = Held.execute_with_opts r serve;
  }

unfoldable pub for_pool : Deadpool → Rendering → (ℕ → Server) → Executor Pool
for_pool d r serve = record {
  execute = Calls.execute d r serve;
  execute_with = Calls.execute_with d r serve;
  execute_opts = Calls.execute_opts d r serve;
  execute_with_opts = Calls.execute_with_opts d r serve;
}

-- The methods without options are those with the default options.
pub record IsUniform {S : Type 0} (e : Executor S) : Type 0 where
  pub plain : (sql : String) (s : S) → e.execute sql s ≡ e.execute_opts sql default_options s
  pub with_params :
      (sql : String) (params : List Value) (s : S)
      → e.execute_with sql params s ≡ e.execute_with_opts sql params default_options s

-- Over a job and over a pool, the methods of the trait without options are those with the default
-- options. Over a reserved connection they give the same results and leave the same session, but
-- the state of the transaction is kept.
pub executors-IsUniform :
    (d : Deadpool) (r : Rendering) (serve : Server) (serves : ℕ → Server) (c : Reserved)
    (sql : String) (params : List Value)
    → let e = for_reserved r serve in
      IsUniform (for_job r serve)
      × IsUniform (for_pool d r serves)
      × ((e.execute sql c).0 ≡ (e.execute_opts sql default_options c).0)
      × ((e.execute sql c).1.session ≡ (e.execute_opts sql default_options c).1.session)
      × ((e.execute_with sql params c).0 ≡ (e.execute_with_opts sql params default_options c).0)
      × ((e.execute_with sql params c).1.session
          ≡ (e.execute_with_opts sql params default_options c).1.session)
      × ((e.execute sql c).1.tx_state ≡ c.tx_state)
      × ((e.execute_with sql params c).1.tx_state ≡ c.tx_state)
unfolding for_job Job.execute_opts Job.execute Job.execute_with_opts Job.execute_with for_pool
    Calls.execute_opts Calls.execute Calls.execute_with_opts Calls.execute_with for_reserved
    Held.execute_opts Held.executor_execute Held.execute_with_opts Held.executor_execute_with
executors-IsUniform d r serve serves c sql params = (
  record { plain = λ sql s. refl; with_params = λ sql params s. refl },
  record { plain = λ sql s. refl; with_params = λ sql params s. refl },
  refl,
  refl,
  refl,
  refl,
  refl,
  refl,
)
