-- ===== src/Pool/Routing.antt =====
-- src/pool/runtime.rs: the choice of a job for one request, `pick_unsaturated` and the three tiers.
pub mod Choice
use mapepire_rs.Prelude.{ℕ, Option, none, some, List, ltb, leb, if◌then◌else◌, min, head?, retain}
use mapepire_rs.Pool.Registry.{JobRef, peek_idle, least_busy}

abbrev pub saturation_threshold : ℕ
saturation_threshold = 32

-- The candidates are at most 8, and at most as many as the pool has connections.
unfoldable pub pick_unsaturated : ℕ → List JobRef → Option JobRef × List JobRef
unfolding least_busy
pick_unsaturated size ws =
    let (candidates, live) = least_busy (min size 8) ws in
    (head? (retain (λ j. ltb j.in_flight saturation_threshold) candidates), live)

pub data Tier : Type 0 where
  try_idle least_busy_scan : JobRef → Tier
  fair_queue : Tier

abbrev pub second_tier : Option JobRef → Tier
second_tier (some j) = least_busy_scan j
second_tier none = fair_queue

-- The order of the tiers, and the registry afterwards.
unfoldable pub route : ℕ → List JobRef → Tier × List JobRef
unfolding peek_idle pick_unsaturated
route size ws =
    let (idle, live) = peek_idle ws in
    elim idle [
      | some j ↦ (try_idle j, live)
      | none ↦ let (picked, rest) = pick_unsaturated size live in (second_tier picked, rest)
    ]
