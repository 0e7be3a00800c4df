-- ===== src/Pool/Manager.antt =====
-- src/pool/manager.rs: how deadpool makes a connection of the pool, and tries one that it had.
use mapepire_rs.Prelude.{ℕ, ◌≡◌, refl, ap, List, ◌∷◌, Result, ok, err}
use mapepire_rs.Config.{DaemonServer}
use mapepire_rs.Error.{Error}
use mapepire_rs.Protocol.Rendering.{Rendering}
use mapepire_rs.Protocol.Request.{ping}
use mapepire_rs.Protocol.Response.{pong}
use mapepire_rs.Protocol.Ids.{next}
use mapepire_rs.Client.{Session, Server}
use mapepire_rs.Transport.Handshake.{Connection}
use mapepire_rs.Job
use mapepire_rs.Job.Ping.{ping_ok, err_ok}
use mapepire_rs.Pool.Registry.{JobRef, track}
use mapepire_rs.Pool.Calls.{PoolError, backend}

-- `create`: `connect` is `Job::connect`, `job` the number of the new job.
unfoldable pub create :
    (DaemonServer → Result Connection Error)
    → DaemonServer
    → (job : ℕ) → List JobRef
    → Result Connection Error × List JobRef
create connect server job registry = elim (connect server) [
  | ok c ↦ (ok c, track job registry)
  | err e ↦ (err e, registry)
]

-- An error of the ping is the error of the backend.
abbrev recycled : Result (Unit {0}) Error × Session → Result (Unit {0}) PoolError × Session
recycled (ok u, t) = (ok tt, t)
recycled (err e, t) = (err (backend e), t)

-- `recycle`: there is always a ping.
unfoldable pub recycle : Rendering → Server → Session → Result (Unit {0}) PoolError × Session
recycle r serve s = recycled (Job.ping r serve s)

recycled-ok :
    (p : Result (Unit {0}) Error × Session) (t : Session) → recycled p ≡ (ok tt, t) → p ≡ (ok tt, t)
recycled-ok (ok u, x) t h = ap (λ q. (ok tt, q.1)) h
recycled-ok (err e, x) t h = absurd (err_ok _ tt (backend e) refl (ap (λ q. q.0) h))

-- A connection is recycled only if the daemon answered with the pong to a ping under its next id;
-- the ping is the only request sent.
pub recycle_pings :
    (r : Rendering) (serve : Server) (s t : Session)
    → recycle r serve s ≡ (ok tt, t)
    → let (id, ids) = next s.ids in
      (serve (record s { ids = ids }) (ping id) ≡ ok (pong id))
      × (t ≡ record { ids = ids; sent = ping id ∷ s.sent })
unfolding recycle
recycle_pings r serve s t h = ping_ok r serve s t (recycled-ok (Job.ping r serve s) t h)
