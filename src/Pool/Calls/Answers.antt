-- ===== src/Pool/Calls/Answers.antt =====
-- src/pool/runtime.rs: what a call of the pool returns and which connection it uses.
use mapepire_rs.Prelude.{
  ℕ, ◌≡◌, ◌≢◌, refl, sym, ◌∙◌, ap, String, Bool, true, Option, none, some, ◌∷◌, arith, ◌==◌,
  if◌then◌else◌, unwrap_or, ok, err, [],
}
use mapepire_rs.Protocol.Rendering.{Rendering}
use mapepire_rs.Protocol.Ids.{next}
use mapepire_rs.Client.{Server, Call}
use mapepire_rs.Query.Rows.{Rows}
use mapepire_rs.Job
use mapepire_rs.Job.{execute_request}
use mapepire_rs.Error.{protocol, zero_page_size}
use mapepire_rs.Job.Execute.{invalid_options_send_nothing, Owns, execute_inner-Owns}
use mapepire_rs.Pool.Registry.{JobRef}
use mapepire_rs.Pool.Routing.{Tier, try_idle, least_busy_scan, fair_queue, route}
use mapepire_rs.Pool.Calls.{
  Pool, Deadpool, pool_opts, set_session, on_job, on_tier, dispatch, execute_opts,
}

-- The job that a tier names.
abbrev pub tier_job : Tier → Option JobRef
tier_job (try_idle j) = some j
tier_job (least_busy_scan j) = some j
tier_job fair_queue = none

abbrev pub swept : Pool → Pool
swept p = record p { registry = (route p.size p.registry).1 }

on_tier-tier_job :
    {A : Type 0} (d : Deadpool) (call : ℕ → Call A) (t : Tier) (p : Pool) (j : JobRef)
    → tier_job t ≡ some j
    → on_tier d call t p ≡ on_job j.job (call j.job) p
unfolding on_tier
on_tier-tier_job d call (try_idle i) p j h = cc
on_tier-tier_job d call (least_busy_scan i) p j h = cc
on_tier-tier_job d call fair_queue p j h = absurd (cc)

pub dispatch-tier_job :
    {A : Type 0} (d : Deadpool) (call : ℕ → Call A) (p : Pool) (j : JobRef)
    → tier_job (route p.size p.registry).0 ≡ some j
    → dispatch d call p ≡ on_job j.job (call j.job) (swept p)
unfolding dispatch
dispatch-tier_job d call p j h = on_tier-tier_job d call (route p.size p.registry).0 (swept p) j h

pub ==-refl : (n : ℕ) → (n == n) ≡ true
==-refl n = ground arith

pub on_job-effect :
    {A : Type 0} (job : ℕ) (call : Call A) (p : Pool)
    → ((on_job job call p).0 ≡ (call (p.jobs job)).0)
      × ((on_job job call p).1.jobs job ≡ (call (p.jobs job)).1)
      × ((k : ℕ) → k ≢ job → (on_job job call p).1.jobs k ≡ p.jobs k)
unfolding on_job set_session
on_job-effect job call p = (refl, rw (==-refl job) refl, λ k h. ground (arith, h))

paged_call : Rendering → (ℕ → Server) → String → ℕ → Bool → ℕ → Call Rows
paged_call r serve sql n terse job =
    Job.execute_inner r (serve job) sql none (record { rows = some n; terse = terse })

dispatch-Owns :
    (d : Deadpool) (r : Rendering) (serve : ℕ → Server) (sql : String) (n : ℕ) (terse : Bool)
    (p : Pool) (j : JobRef) (out : Rows)
    → tier_job (route p.size p.registry).0 ≡ some j
    → (dispatch d (paged_call r serve sql n terse) p).0 ≡ ok out
    → let after = (dispatch d (paged_call r serve sql n terse) p).1 in
      let s = p.jobs j.job in
      let id = (next s.ids).0 in
      Owns id n out
      × ((after.jobs j.job).sent
          ≡ execute_request id sql none n (if terse then some true else none) ∷ s.sent)
      × ((k : ℕ) → k ≢ j.job → after.jobs k ≡ p.jobs k)
unfolding paged_call
dispatch-Owns d r serve sql n terse p j out h e =
    let call = paged_call r serve sql n terse in
    let q = dispatch-tier_job d call p j h in
    let (result, at, elsewhere) = on_job-effect j.job (call j.job) (swept p) in
    let owned =
      execute_inner-Owns r (serve j.job) sql none (some n) terse (p.jobs j.job) out
        (sym result ∙ sym (ap (λ x. x.0) q) ∙ e) in
    (
      owned.0,
      ap (λ x. (x.1.jobs j.job).sent) q ∙ ap (λ x. x.sent) at ∙ owned.1,
      λ k ne. ap (λ x. x.1.jobs k) q ∙ elsewhere k ne,
    )

-- An execute on the pool that is routed to a job, idle or busy, and yields rows has sent one
-- request on that job's connection and left any other connection `k` alone. The rows carry the id of
-- that request, and the page size is the pool's default where the options name none.
pub pool_execute-Owns :
    (d : Deadpool) (r : Rendering) (serve : ℕ → Server) (sql : String) (rows : Option ℕ)
    (terse : Bool) (p : Pool) (j : JobRef) (out : Rows) (k : ℕ)
    → tier_job (route p.size p.registry).0 ≡ some j
    → k ≢ j.job
    → (execute_opts d r serve sql (record { rows = rows; terse = terse }) p).0 ≡ ok out
    → let after = (execute_opts d r serve sql (record { rows = rows; terse = terse }) p).1 in
      let s = p.jobs j.job in
      let id = (next s.ids).0 in
      let size = unwrap_or rows p.default_page_size in
      Owns id size out
      × ((after.jobs j.job).sent
          ≡ execute_request id sql none size (if terse then some true else none) ∷ s.sent)
      × (after.jobs k ≡ p.jobs k)
unfolding execute_opts pool_opts Job.execute_opts paged_call
pool_execute-Owns d r serve sql none terse p j out k h ne e =
    let (owns, sent, elsewhere) =
      dispatch-Owns d r serve sql p.default_page_size terse p j out h e in
    (owns, sent, elsewhere k ne)
pool_execute-Owns d r serve sql (some n) terse p j out k h ne e =
    let (owns, sent, elsewhere) = dispatch-Owns d r serve sql n terse p j out h e in
    (owns, sent, elsewhere k ne)

-- A pool whose default page size is zero, which its builder accepts, fails each execute that names
-- no page size: nothing is sent, and the job that was routed to is as it was.
pub zero_default_fails :
    (d : Deadpool) (r : Rendering) (serve : ℕ → Server) (sql : String) (terse : Bool) (p : Pool)
    (j : JobRef)
    → tier_job (route p.size p.registry).0 ≡ some j
    → p.default_page_size ≡ 0
    → let (result, after) = execute_opts d r serve sql (record { rows = none; terse = terse }) p in
      (result ≡ err (protocol zero_page_size)) × (after.jobs j.job ≡ p.jobs j.job)
unfolding execute_opts pool_opts Job.execute_opts paged_call
zero_default_fails d r serve sql terse p j h z =
    let call = paged_call r serve sql p.default_page_size terse in
    let q = dispatch-tier_job d call p j h in
    let (result, at, elsewhere) = on_job-effect j.job (call j.job) (swept p) in
    let refused =
      (invalid_options_send_nothing r (serve j.job) (record { cont_id = none; sql = sql }) sql none
        [] [] (record { rows = some p.default_page_size; terse = terse })
        (record { rows = none; terse = terse }) (p.jobs j.job) (ap some z)).0 in
    (
      ap (λ x. x.0) q ∙ result ∙ ap (λ x. x.0) refused,
      ap (λ x. x.1.jobs j.job) q ∙ at ∙ ap (λ x. x.1) refused,
    )
