-- ===== src/Tests/Checkout.antt =====
-- Instances for src/pool/manager.rs.
use mapepire_rs.Prelude.{◌≡◌, refl, [], ◌∷◌, ok}
use mapepire_rs.Prelude.Text.{show_ℕ}
use mapepire_rs.Protocol.Request.{Request}
use mapepire_rs.Protocol.Response.{pong}
use mapepire_rs.Protocol.Ids.{next}
use mapepire_rs.Client.{Session, Server}
use mapepire_rs.Transport.Kinds.{request_id}
use mapepire_rs.Job
use mapepire_rs.Pool.Manager.{recycle, recycle_pings}
use mapepire_rs.Tests.{plain, new_session}

abbrev ponging : Server
ponging s request = ok (pong (request_id request))

abbrev pinged : Session
pinged = record {
  ids = (next new_session.ids).1;
  sent = Request.ping (next new_session.ids).0 ∷ [];
}

recycle_pings_example :
    let (id, ids) = next new_session.ids in
    (ponging (record new_session { ids = ids }) (Request.ping id) ≡ ok (pong id))
    × (pinged ≡ record { ids = ids; sent = Request.ping id ∷ new_session.sent })
unfolding recycle Job.ping next show_ℕ request_id
recycle_pings_example = recycle_pings plain ponging new_session pinged refl
