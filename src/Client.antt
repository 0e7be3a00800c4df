-- ===== src/Client.antt =====
-- The part of a connection that src/job.rs and src/query.rs work through: the id allocator that
-- they share, and the requests that they hand to the dispatcher, oldest last. A call is a function
-- of this state; the answer to `send` is a function of the state and the request.
use mapepire_rs.Prelude.{String, List, ◌∷◌, Result, ok, err}
use mapepire_rs.Protocol.Request.{Request}
use mapepire_rs.Protocol.Response.{Response}
use mapepire_rs.Protocol.Ids.{IdAllocator, next}
use mapepire_rs.Error.{Error}

pub record Session : Type 0 where
  pub ids : IdAllocator
  pub sent : List Request

abbrev pub Server : Type 0
Server = Session → Request → Result Response Error

abbrev pub Call : Type 0 → Type 0
Call A = Session → Result A Error × Session

infixl 5 ◌>>=◌ ◌>>◌
abbrev pub ◌>>=◌ : {A B : Type 0} → Call A → (A → Call B) → Call B
◌>>=◌ m f s = let (r, t) = m s in elim r [ ok a ↦ f a t | err e ↦ (err e, t) ]

abbrev pub ◌>>◌ : {B : Type 0} → Call (Unit {0}) → Call B → Call B
m >> k = m >>= λ _. k

-- A result that needs no connection, as `?` uses it.
abbrev pub lift : {A : Type 0} → Result A Error → Call A
lift r s = (r, s)

-- `self.inner.ids.next()`.
unfoldable pub next_id : Call String
unfolding next
next_id s = let (id, ids) = next s.ids in (ok id, record s { ids = ids })

-- `handle.send(request).await`.
unfoldable pub send : Server → Request → Call Response
send serve request s = (serve s request, record s { sent = request ∷ s.sent })

-- `spawn_best_effort` of a send whose answer is ignored. A Tokio runtime is present.
unfoldable pub send_and_forget : Request → Session → Session
send_and_forget request s = record s { sent = request ∷ s.sent }
