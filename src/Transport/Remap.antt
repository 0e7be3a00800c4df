-- ===== src/Transport/Remap.antt =====
-- src/transport/dispatcher.rs: what `remap_response` keeps.
use mapepire_rs.Prelude.{◌≡◌, arith}
use mapepire_rs.Protocol.Response.{Response}
use mapepire_rs.Transport.Kinds.{PendingKind, remap_response, response_id}

-- The remap of an answer by the kind of its request keeps the id and is stable under a second
-- remap.
pub remap_keeps_id :
    (k : PendingKind) (a : Response)
    → (response_id (remap_response k a) ≡ response_id a)
      × (remap_response k (remap_response k a) ≡ remap_response k a)
unfolding remap_response response_id
remap_keeps_id k a = (ground arith, ground arith)
