-- ===== src/Pool/Calls/Isolation.antt =====
-- src/pool/runtime.rs and reserved.rs: a connection that is held for a transaction is kept out of the
-- way of the calls that the pool routes.
use mapepire_rs.Prelude.{
  add_u32, sub_u32, ℕ, zero, suc, ◌<◌, ◌≡◌, ◌≢◌, refl, sym, ap, subst, ◌∙◌, Option, none, some,
  List, [], ◌∷◌, arith, ==_iff, retain, u32_max, Result, ok, inl, inr, Option-cases,
}
use mapepire_rs.Client.{Session, Call}
use mapepire_rs.Error.{Error}
use mapepire_rs.Pool.Registry.{JobRef, is_live, peek_idle}
use mapepire_rs.Pool.Registry.Scan.{Comes, FindsIdle, peek_idle_finds}
use mapepire_rs.Pool.Routing.{route, pick_unsaturated, try_idle, second_tier}
use mapepire_rs.Pool.Routing.Choice.{Picks, pick_unsaturated_least}
use mapepire_rs.Pool.Calls.{Pool, Deadpool, get_or_timeout, acquire, dispatch, mark}
use mapepire_rs.Pool.Calls.Answers.{tier_job, swept, dispatch-tier_job, on_job-effect}
use mapepire_rs.Pool.Calls.Traffic.{
  Traffic, writes, settles, joins, refers, stores, scans, on_traffic, after_traffic,
  outstanding_after, outstanding, Fits, IsHeld, Marked, mark-Marked, retain-Marked, map-Marked,
  track-Marked, Comes-Marked,
}

idle_found :
    (ws : List JobRef) (j : JobRef) → (peek_idle ws).0 ≡ some j → (j.in_flight ≡ 0) × Comes j ws
idle_found ws j e =
    let (quiet, alone, comes) = subst (λ o. FindsIdle o ws) e (peek_idle_finds ws) in (quiet, comes)

picked_found :
    (size : ℕ) (ws : List JobRef) (j : JobRef)
    → (pick_unsaturated size ws).0 ≡ some j
    → (j.in_flight < 32) × Comes j ws
unfolding pick_unsaturated
picked_found zero ws j e = absurd (cc)
picked_found (suc n) ws j e =
    let (below, comes, least) =
      subst (λ o. Picks o ws) e (pick_unsaturated_least (suc n) ws (omega arith)) in
    (below, comes)

route-some :
    (size : ℕ) (ws : List JobRef) (i : JobRef)
    → (peek_idle ws).0 ≡ some i
    → route size ws ≡ (try_idle i, retain is_live ws)
unfolding route peek_idle
route-some size ws i e = rw (e, route) refl

route-none :
    (size : ℕ) (ws : List JobRef)
    → (peek_idle ws).0 ≡ none
    → let (picked, rest) = pick_unsaturated size (retain is_live ws) in
      route size ws ≡ (second_tier picked, rest)
unfolding route peek_idle
route-none size ws e = rw (e, route) refl

tier_job-second_tier : (o : Option JobRef) → tier_job (second_tier o) ≡ o
tier_job-second_tier none = refl
tier_job-second_tier (some j) = refl

-- What is found among marked entries, with another counter than the mark, is another job.
unmarked :
    (job : ℕ) (ws : List JobRef) (j : JobRef)
    → Marked job 0 ws
    → Comes j ws
    → j.in_flight < 32
    → j.job ≢ job
unmarked job ws j m comes below same = omega (arith, Comes-Marked job 0 j ws comes m same)

-- A job that a tier names is not marked.
route-unmarked :
    (job size : ℕ) (ws : List JobRef) (j : JobRef)
    → Marked job 0 ws
    → tier_job (route size ws).0 ≡ some j
    → j.job ≢ job
route-unmarked job size ws j m e =
    let live = retain is_live ws in
    elim (Option-cases (peek_idle ws).0) [
      | inl absent ↦
          let named =
            sym (tier_job-second_tier (pick_unsaturated size live).0)
            ∙ sym (ap (λ t. tier_job t.0) (route-none size ws absent))
            ∙ e in
          let (below, comes) = picked_found size live j named in
          unmarked job live j (retain-Marked job 0 is_live ws m) comes below
      | inr (i, present) ↦
          let named = present ∙ sym (ap (λ t. tier_job t.0) (route-some size ws i present)) ∙ e in
          let (quiet, comes) = idle_found ws j named in unmarked job ws j m comes (omega arith)
    ]

-- The scans leave the marks.
route-Marked :
    (job n size : ℕ) (ws : List JobRef) → Marked job n ws → Marked job n (route size ws).1
unfolding pick_unsaturated
route-Marked job n size ws m =
    let kept = retain-Marked job n is_live ws m in
    elim (Option-cases (peek_idle ws).0) [
      | inl absent ↦
          subst (λ t. Marked job n t.1) (sym (route-none size ws absent))
            (retain-Marked job n is_live (retain is_live ws) kept)
      | inr (i, present) ↦ subst (λ t. Marked job n t.1) (sym (route-some size ws i present)) kept
    ]

on_traffic-Marked :
    (job n : ℕ) (t : Traffic) (ws : List JobRef)
    → Fits job t n
    → Marked job n ws
    → Marked job (outstanding_after job t n) (on_traffic t ws)
unfolding on_traffic mark add_u32 sub_u32
on_traffic-Marked job n (writes k) ws fits m =
    map-Marked job n _ _ ws (λ w c h. ground (arith, ==_iff w.job k, ==_iff k job, c)) m
on_traffic-Marked job n (settles k) ws fits m =
    map-Marked job n _ _ ws (λ w c h. ground (arith, ==_iff w.job k, ==_iff k job, c, fits)) m
on_traffic-Marked job n (joins k) ws fits m = track-Marked job n k ws fits m
on_traffic-Marked job n (refers k count) ws fits m =
    map-Marked job n n _ ws (λ w c h. ground (arith, c)) m
on_traffic-Marked job n (stores k value) ws fits m =
    map-Marked job n n _ ws (λ w c h. ground (arith, ==_iff w.job k, c, fits)) m
on_traffic-Marked job n (scans size) ws fits m = route-Marked job n size ws m

after_traffic-Marked :
    (job n : ℕ) (ts : List Traffic) (ws : List JobRef)
    → IsHeld job ts n
    → Marked job n ws
    → Marked job (outstanding job ts n) (after_traffic ts ws)
after_traffic-Marked job n [] ws held m = m
after_traffic-Marked job n (t ∷ ts) ws held m =
    after_traffic-Marked job (outstanding_after job t n) ts (on_traffic t ws) held.1
      (on_traffic-Marked job n t ws held.0 m)

-- The pool after the counter of a job is set to the mark.
abbrev marked_pool : ℕ → Result ℕ Error × Pool → Pool
marked_pool job got = record got.1 { registry = mark job u32_max got.1.registry }

acquire_ok :
    (d : Deadpool) (p q : Pool) (job : ℕ)
    → get_or_timeout d p ≡ (ok job, q)
    → (acquire d p).1 ≡ marked_pool job (ok job, q)
unfolding acquire mark
acquire_ok d p q job got = rw (got, acquire) (ap (marked_pool job) got)

-- A pool some time later: its registry has seen traffic, its size and its sessions may be others.
abbrev pub later : List Traffic → ℕ → (ℕ → Session) → Pool → Pool
later ts size jobs p = record p { registry = after_traffic ts p.registry; size = size; jobs = jobs }

-- A held connection is spared whenever it is quiet. After an acquire there may be any traffic, on
-- this connection as on the others, through which the job stays held: what it settles are requests
-- that were written since the acquire, nobody else stores into its counter and no new job has its
-- number. Then a call that the pool routes to a connection of its registry goes to another one, and
-- leaves the session of the held one as it is, at every moment when no request that was written
-- since the acquire is outstanding on the held connection.
pub quiet_hold_is_spared :
    {A : Type 0} (d : Deadpool) (p q : Pool) (job : ℕ) (ts : List Traffic) (size : ℕ)
    (jobs : ℕ → Session) (call : ℕ → Call A) (j : JobRef)
    → get_or_timeout d p ≡ (ok job, q)
    → IsHeld job ts 0
    → outstanding job ts 0 ≡ 0
    → tier_job (route size (later ts size jobs (acquire d p).1).registry).0 ≡ some j
    → (j.job ≢ job) × ((dispatch d call (later ts size jobs (acquire d p).1)).1.jobs job ≡ jobs job)
quiet_hold_is_spared d p q job ts size jobs call j got held quiet named =
    let x = later ts size jobs (acquire d p).1 in
    let marked : Marked job 0 x.registry =
      subst (λ n. Marked job n x.registry) quiet
        (after_traffic-Marked job 0 ts (acquire d p).1.registry held (
          subst (λ y. Marked job 0 y.registry) (sym (acquire_ok d p q job got))
            (mark-Marked job q.registry))) in
    let other = route-unmarked job size x.registry j marked named in
    let (result, at, elsewhere) = on_job-effect j.job (call j.job) (swept x) in
    (
      other,
      ap (λ y. y.1.jobs job) (dispatch-tier_job d call x j named)
          ∙ elsewhere job (λ e. other (sym e)),
    )
