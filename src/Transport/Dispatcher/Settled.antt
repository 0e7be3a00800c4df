-- ===== src/Transport/Dispatcher/Settled.antt =====
-- src/transport/dispatcher.rs: what the drains, and the senders that are dropped with the map, tell
-- the callers that wait.
use mapepire_rs.Prelude.{
  ℕ, String, ◌+◌, ◌≤◌, ◌≡◌, refl, ap, sym, ◌∙◌, subst, [], ◌∷◌, ◌++◌, All, arith, err,
}
use mapepire_rs.Error.{Error, transport, closed}
use mapepire_rs.Transport.Dispatcher.Table.{Pending, Map, slots}
use mapepire_rs.Transport.Dispatcher.Replies.{count, replied}
use mapepire_rs.Transport.Dispatcher.Keys.{waiting, HasKeysOnce, count-find, find-count}
use mapepire_rs.Transport.Dispatcher.Spec.{Log, Fails, Settles}
use mapepire_rs.Transport.Dispatcher.{
  Reply, answered, dropped, Dispatcher, settle, settle_all, drain_pending_with_error, drop_all,
  drop_pending,
}

-- New replies before old ones, failures that count the slots of a map.
unfoldable pub Settled : Map → Log → Log → Type 0
Settled m old new =
    (out : Log) × (new ≡ out ++ old) × All Fails out × ((k : ℕ) → replied k out ≡ count k (slots m))

append-cons : (x : ℕ × Reply) (out old : Log) → out ++ (x ∷ old) ≡ (out ++ (x ∷ [])) ++ old
append-cons x [] old = refl
append-cons x (y ∷ out) old = ap (◌∷◌ y) (append-cons x out old)

All-append : (x : ℕ × Reply) (out : Log) → All Fails out → Fails x → All Fails (out ++ (x ∷ []))
All-append x [] h f = (f, tt)
All-append x (y ∷ out) h f = (h.0, All-append x out h.1 f)

replied-append : (k : ℕ) (out old : Log) → replied k (out ++ old) ≡ replied k out + replied k old
replied-append k [] old = omega arith
replied-append k ((n, r) ∷ out) old = omega (arith, replied-append k out old)

Settled-cons :
    (id : String) (p : Pending) (m : Map) (reply : Reply) (old new : Log)
    → Fails (p.reply, reply)
    → Settled m ((p.reply, reply) ∷ old) new
    → Settled ((id, p) ∷ m) old new
unfolding Settled
Settled-cons id p m reply old new f (out, same, fails, counts) = (
  out ++ ((p.reply, reply) ∷ []),
  same ∙ append-cons (p.reply, reply) out old,
  All-append (p.reply, reply) out fails f,
  λ k. replied-append k out ((p.reply, reply) ∷ []) ∙ omega (arith, counts k),
)

Settled-settle_all : (m : Map) (s : Dispatcher) → Settled m s.replies (settle_all m s).replies
unfolding settle_all Settled
Settled-settle_all [] s = ([], refl, tt, λ k. refl)
Settled-settle_all ((id, p) ∷ m) s =
    Settled-cons id p m (answered (err (transport closed))) s.replies _ tt
      (Settled-settle_all m (settle p (err (transport closed)) s))

Settled-drop_all : (m : Map) (old : Log) → Settled m old (drop_all m old)
unfolding drop_all Settled
Settled-drop_all [] old = ([], refl, tt, λ k. refl)
Settled-drop_all ((id, p) ∷ m) old =
    Settled-cons id p m dropped old _ tt (Settled-drop_all m ((p.reply, dropped) ∷ old))

pub Settled-drop_pending : (s : Dispatcher) → Settled s.pending s.replies (drop_pending s).replies
unfolding drop_pending
Settled-drop_pending s = Settled-drop_all s.pending s.replies

pub Settled-drain :
    (e : Error) (s : Dispatcher)
    → Settled s.pending s.replies (drain_pending_with_error e s).replies
unfolding drain_pending_with_error Settled
Settled-drain e s = go s.pending refl
  where
    go : (m : Map) → s.pending ≡ m → Settled m s.replies (drain_pending_with_error e s).replies
    go [] q = rw (q, drain_pending_with_error) ([], refl, tt, λ k. refl)
    go ((id, p) ∷ m) q =
        rw (q, drain_pending_with_error)
          (Settled-cons id p m (answered (err e)) s.replies _ tt
            (Settled-settle_all m (settle p (err e) (record s { pending = [] }))))

-- Replies that count the slots of a map with each id once settle the requests of the map.
pub Settles-waiting :
    (m : Map) (out : Log)
    → HasKeysOnce m
    → All Fails out
    → ((k : ℕ) → replied k out ≡ count k (slots m))
    → Settles (waiting m) out
unfolding Settles
Settles-waiting m out keys fails counts = (
  fails,
  λ id p h. subst (λ n. 1 ≤ n) (sym (counts p.reply)) (count-find id p m h),
  λ k h. find-count k m keys (subst (λ n. 1 ≤ n) (counts k) h),
)
