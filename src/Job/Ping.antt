-- ===== src/Job/Ping.antt =====
-- src/job.rs, `Job::ping`: what a ping that succeeds says of the daemon.
use mapepire_rs.Prelude.{
  ◌≡◌, refl, sym, ap, ◌∙◌, String, ◌∷◌, arith, Result, ok, err, inl, inr, Result-cases, Bool-cases,
}
use mapepire_rs.Prelude.Text.{str_eq, str_eq_iff_true}
use mapepire_rs.Protocol.Rendering.{Rendering}
use mapepire_rs.Protocol.Request.{Request}
use mapepire_rs.Protocol.Response.{Response, pong}
use mapepire_rs.Protocol.Ids.{next}
use mapepire_rs.Error.{Error}
use mapepire_rs.Client.{Session, Server}
use mapepire_rs.Job
use mapepire_rs.Job.{accept_pong}

pub err_ok : {A E : Type 0} (r : Result A E) (a : A) (e : E) → r ≡ err e → r ≡ ok a → ⊥
err_ok r a e h k = cc

module _ (r : Rendering) where
  accept_pong-ok :
      (serve : Server) (id : String) (a : Response) → accept_pong r serve id a ≡ ok tt → a ≡ pong id
  unfolding accept_pong
  accept_pong-ok serve id (pong got) h = elim (Bool-cases (str_eq got id)) [
    | inl same ↦ ap pong (str_eq_iff_true got id same)
    | inr differ ↦ absurd (ground arith)
  ]
  accept_pong-ok serve id _ h = absurd (cc)

  abbrev pinged : Session → Session
  pinged s = record { ids = (next s.ids).1; sent = Request.ping (next s.ids).0 ∷ s.sent }

  -- What a ping makes of the answer.
  abbrev from_answer : Server → Session → Result Response Error → Result (Unit {0}) Error × Session
  from_answer serve s (ok a) = (accept_pong r serve (next s.ids).0 a, pinged s)
  from_answer serve s (err e) = (err e, pinged s)

  ping-answer :
      (serve : Server) (s : Session) (a : Result Response Error)
      → serve (record s { ids = (next s.ids).1 }) (Request.ping (next s.ids).0) ≡ a
      → Job.ping r serve s ≡ from_answer serve s a
  unfolding Job.ping
  ping-answer serve s (ok a) e = rw (e) refl
  ping-answer serve s (err x) e = rw (e) refl

  -- A ping that succeeds has sent one request, the ping, and had the pong to it.
  pub ping_ok :
      (serve : Server) (s t : Session)
      → Job.ping r serve s ≡ (ok tt, t)
      → let (id, ids) = next s.ids in
        (serve (record s { ids = ids }) (Request.ping id) ≡ ok (pong id))
        × (t ≡ record { ids = ids; sent = Request.ping id ∷ s.sent })
  ping_ok serve s t h =
      let answer = serve (record s { ids = (next s.ids).1 }) (Request.ping (next s.ids).0) in
      elim (Result-cases answer) [
        | inl (a, e) ↦
            let seen = sym (ping-answer serve s (ok a) e) ∙ h in
            (
              e ∙ ap ok (accept_pong-ok serve (next s.ids).0 a (ap (λ x. x.0) seen)),
              sym (ap (λ x. x.1) seen),
            )
        | inr (x, e) ↦
            absurd (err_ok _ tt x refl (ap (λ x. x.0) (sym (ping-answer serve s (err x) e) ∙ h)))
      ]
