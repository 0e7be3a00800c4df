-- ===== src/Pool/Builder.antt =====
-- src/pool/builder.rs: the settings of a pool and its construction.
use Prim.Native.String.{◌++◌}
use mapepire_rs.Prelude.{
  ℕ, zero, suc, ◌*◌, ◌≡◌, refl, ap, ◌∙◌, String, Option, some, bind_opt, map_opt, Result, ok, err,
}
use mapepire_rs.Error.{Error, internal}
use mapepire_rs.Config.{DaemonServer}
use mapepire_rs.Pool.Calls.{Pool, PoolError, Deadpool}
use mapepire_rs.Pool.Reaper.{second, reaper_period}

pub data ParameterLogging : Type 0 where
  none types_and_count full : ParameterLogging

pub record PoolBuilder : Type 0 where
  pub server : DaemonServer
  pub max_size : ℕ
  pub starting_size : ℕ
  pub acquire_timeout : Option ℕ
  pub idle_timeout : Option ℕ
  pub default_page_size : ℕ
  pub parameter_logging : ParameterLogging

-- `PoolBuilder::new`.
unfoldable pub new_builder : DaemonServer → PoolBuilder
new_builder server = record {
  server = server;
  max_size = 16;
  starting_size = 0;
  acquire_timeout = some (5 * second);
  idle_timeout = some (300 * second);
  default_page_size = 100;
  parameter_logging = ParameterLogging.none;
}

-- The setters of the builder.
unfoldable pub max_size : ℕ → PoolBuilder → PoolBuilder
max_size n b = record b { max_size = n }

unfoldable pub starting_size : ℕ → PoolBuilder → PoolBuilder
starting_size n b = record b { starting_size = n }

unfoldable pub acquire_timeout : Option ℕ → PoolBuilder → PoolBuilder
acquire_timeout d b = record b { acquire_timeout = d }

unfoldable pub idle_timeout : Option ℕ → PoolBuilder → PoolBuilder
idle_timeout d b = record b { idle_timeout = d }

unfoldable pub default_page_size : ℕ → PoolBuilder → PoolBuilder
default_page_size n b = record b { default_page_size = n }

unfoldable pub parameter_logging : ParameterLogging → PoolBuilder → PoolBuilder
parameter_logging l b = record b { parameter_logging = l }

-- The loop over `starting_size`: each object is dropped as soon as it is bound to `_`. `show` prints
-- an error of the pool.
unfoldable pub open_eagerly : (PoolError → String) → Deadpool → ℕ → Pool → Result Pool Error
open_eagerly show d zero p = ok p
open_eagerly show d (suc n) p =
    let (checked, q) = d.get p in
    elim checked [
      | ok job ↦ open_eagerly show d n (d.put_back job q)
      | err e ↦ err (internal ("starting_size eager open: " ++ show e))
    ]

-- A built pool, with the timeout and the period of its reaper if it has one.
pub record Built : Type 0 where
  pub pool : Pool
  pub parameter_logging : ParameterLogging
  pub reaper : Option (ℕ × ℕ)

-- `build`. `make` builds the empty pool of deadpool from the settings, or fails with a text.
unfoldable pub build_pool :
    (PoolError → String)
    → Deadpool
    → (PoolBuilder → Result Pool String)
    → PoolBuilder
    → Result Built Error
unfolding open_eagerly
build_pool show d make b = elim (make b) [
  | err text ↦ err (internal ("pool builder: " ++ text))
  | ok p ↦ elim (open_eagerly show d b.starting_size p) [
    | err e ↦ err e
    | ok q ↦ ok (record {
      pool = q;
      parameter_logging = b.parameter_logging;
      reaper = bind_opt b.idle_timeout (λ d. map_opt (λ p. (d, p)) (reaper_period d));
    })
  ]
]

open_eagerly-suc :
    (show : PoolError → String) (d : Deadpool) (n : ℕ) (p q : Pool) (job : ℕ)
    → d.get p ≡ (ok job, q)
    → open_eagerly show d (suc n) p ≡ open_eagerly show d n (d.put_back job q)
unfolding open_eagerly
open_eagerly-suc show d n p q job h =
    ap
      (λ x. elim x.0 as (λ _. Result Pool Error) [
        | ok j ↦ open_eagerly show d n (d.put_back j x.1)
        | err e ↦ err (internal ("starting_size eager open: " ++ show e))
      ])
      h

open_eagerly-idle :
    (show : PoolError → String) (d : Deadpool) (idle : Pool → Type 0)
    (reuse : (q : Pool)
      → idle q
      → (job : ℕ) × (q' : Pool) × (d.get q ≡ (ok job, q'))
        × idle (d.put_back job q')
        × ((d.put_back job q').size ≡ q.size))
    (n : ℕ) (p : Pool)
    → idle p
    → (out : Pool) × (open_eagerly show d n p ≡ ok out) × (out.size ≡ p.size)
unfolding open_eagerly
open_eagerly-idle show d idle reuse zero p i = (p, refl, refl)
open_eagerly-idle show d idle reuse (suc n) p i =
    let (job, q, got, rests, same) = reuse p i in
    let (out, h, size) = open_eagerly-idle show d idle reuse n (d.put_back job q) rests in
    (out, open_eagerly-suc show d n p q job got ∙ h, size ∙ same)

-- If a checkout after a return takes the connection that was returned and opens none, as `idle`
-- says of the pools that it holds of, then any number of eager opens beyond the first leaves the
-- pool with the size that one open gives it.
pub eager_opens_one :
    (show : PoolError → String) (d : Deadpool) (idle : Pool → Type 0)
    (reuse : (q : Pool)
      → idle q
      → (job : ℕ) × (q' : Pool) × (d.get q ≡ (ok job, q'))
        × idle (d.put_back job q')
        × ((d.put_back job q').size ≡ q.size))
    (n : ℕ) (p q : Pool) (job : ℕ)
    → d.get p ≡ (ok job, q)
    → idle (d.put_back job q)
    → (out : Pool) × (open_eagerly show d (suc n) p ≡ ok out) × (out.size ≡ (d.put_back job q).size)
eager_opens_one show d idle reuse n p q job first rests =
    let (out, h, size) = open_eagerly-idle show d idle reuse n (d.put_back job q) rests in
    (out, open_eagerly-suc show d n p q job first ∙ h, size)
