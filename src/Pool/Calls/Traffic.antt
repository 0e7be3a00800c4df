-- ===== src/Pool/Calls/Traffic.antt =====
-- src/pool/routing.rs and reserved.rs, src/transport/dispatcher.rs: what changes the registry of a pool
-- and its counters, and the counter of a held connection under it.
use mapepire_rs.Prelude.{
  map, ◌+◌, ◌-◌, ◌%◌, ◌==◌, if◌then◌else◌, u32_mod, add_u32, sub_u32, ℕ, ◌<◌, ◌≡◌, ◌≢◌, sym, ap,
  ◌∙◌, Bool, Bool-cases, List, [], ◌∷◌, arith, ==_iff, retain, All, u32_max, inl, inr,
}
use mapepire_rs.Pool.Registry.{JobRef, track}
use mapepire_rs.Pool.Registry.Scan.{Comes}
use mapepire_rs.Pool.Routing.{route}
use mapepire_rs.Pool.Calls.{mark}

-- What happens to the registry: a dispatcher writes a request or settles one, references to a job come
-- and go, a `Reserved` marks a job or frees it, a new job is tracked, a call scans.
pub data Traffic : Type 0 where
  writes settles joins : ℕ → Traffic
  refers stores : (job n : ℕ) → Traffic
  scans : (size : ℕ) → Traffic

-- The counter of a job changes.
abbrev counted : (ℕ → ℕ) → ℕ → List JobRef → List JobRef
counted f job = map (λ w. if w.job == job then record w { in_flight = f w.in_flight } else w)

unfoldable pub on_traffic : Traffic → List JobRef → List JobRef
unfolding add_u32 sub_u32 track mark route
on_traffic (writes k) ws = counted add_u32 k ws
on_traffic (settles k) ws = counted sub_u32 k ws
on_traffic (joins k) ws = track k ws
on_traffic (refers k n) ws = map (λ w. if w.job == k then record w { strong = n } else w) ws
on_traffic (stores k n) ws = mark k n ws
on_traffic (scans size) ws = (route size ws).1

abbrev pub after_traffic : List Traffic → List JobRef → List JobRef
after_traffic [] ws = ws
after_traffic (t ∷ ts) ws = after_traffic ts (on_traffic t ws)

-- The requests outstanding on a job after one event, and after many, when `n` were before.
abbrev pub outstanding_after : ℕ → Traffic → ℕ → ℕ
outstanding_after job (writes k) n = if k == job then n + 1 else n
outstanding_after job (settles k) n = if k == job then n - 1 else n
outstanding_after job _ n = n

abbrev pub outstanding : ℕ → List Traffic → ℕ → ℕ
outstanding job [] n = n
outstanding job (t ∷ ts) n = outstanding job ts (outstanding_after job t n)

-- A job stays held, with `n` requests outstanding at first: only a request that is outstanding is
-- settled, no other `Reserved` stores into its counter, and a new job has another number.
abbrev pub Fits : ℕ → Traffic → ℕ → Type 0
Fits job (settles k) n = k ≡ job → 0 < n
Fits job (joins k) n = k ≢ job
Fits job (stores k m) n = k ≢ job
Fits job _ n = Unit {0}

abbrev pub IsHeld : ℕ → List Traffic → ℕ → Type 0
IsHeld job [] n = Unit {0}
IsHeld job (t ∷ ts) n = Fits job t n × IsHeld job ts (outstanding_after job t n)

-- The entries of a job have the counter of a reserved connection with `n` requests outstanding.
abbrev pub Counts : ℕ → ℕ → JobRef → Type 0
Counts job n w = w.job ≡ job → w.in_flight ≡ (u32_max + n) % u32_mod

abbrev pub Marked : ℕ → ℕ → List JobRef → Type 0
Marked job n = All (Counts job n)

pub mark-Marked : (job : ℕ) (ws : List JobRef) → Marked job 0 (mark job u32_max ws)
unfolding mark
mark-Marked job [] = tt
mark-Marked job (w ∷ ws) = (λ e. ground (arith, ==_iff w.job job), mark-Marked job ws)

pub retain-Marked :
    (job n : ℕ) (f : JobRef → Bool) (ws : List JobRef)
    → Marked job n ws
    → Marked job n (retain f ws)
retain-Marked job n f [] m = tt
retain-Marked job n f (w ∷ ws) m = elim (Bool-cases (f w)) [
  | inl e ↦ rw (e, retain) (m.0, retain-Marked job n f ws m.1)
  | inr e ↦ rw (e, retain) (retain-Marked job n f ws m.1)
]

-- What a change of each entry preserves, it preserves of the registry.
pub map-Marked :
    (job n m : ℕ) (f : JobRef → JobRef) (ws : List JobRef)
    → ((w : JobRef) → Counts job n w → Counts job m (f w))
    → Marked job n ws
    → Marked job m (map f ws)
map-Marked job n m f [] keeps marked = tt
map-Marked job n m f (w ∷ ws) keeps marked =
    (keeps w marked.0, map-Marked job n m f ws keeps marked.1)

pub track-Marked :
    (job n k : ℕ) (ws : List JobRef) → k ≢ job → Marked job n ws → Marked job n (track k ws)
unfolding track
track-Marked job n k [] ne m = (λ e. absurd (ne e), tt)
track-Marked job n k (w ∷ ws) ne m = (m.0, track-Marked job n k ws ne m.1)

pub Comes-Marked :
    (job n : ℕ) (j : JobRef) (ws : List JobRef) → Comes j ws → Marked job n ws → Counts job n j
Comes-Marked job n j [] c m e = absurd c
Comes-Marked job n j (w ∷ ws) (inl (live, same)) m e =
    ap (λ x. x.in_flight) same ∙ m.0 (sym (ap (λ x. x.job) same) ∙ e)
Comes-Marked job n j (w ∷ ws) (inr c) m e = Comes-Marked job n j ws c m.1 e
