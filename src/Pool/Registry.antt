-- ===== src/Pool/Registry.antt =====
-- src/pool/routing.rs: the registry of weak references to the jobs of a pool, and its two scans.
-- An entry holds the strong count and the counter of the job that it refers to; a scan sees one
-- value of each.
pub mod Scan
use mapepire_rs.Prelude.{
  ℕ, zero, suc, ◌+◌, Bool, true, false, ◌&&◌, Option, none, some, List, [], ◌∷◌, ◌++◌, ltb, leb,
  ◌==◌, if◌then◌else◌, take, retain, u32_max,
}

-- `Weak<Job>`, and the `Arc<Job>` that an upgrade makes of it.
pub record JobRef : Type 0 where
  pub job : ℕ
  pub strong : ℕ
  pub in_flight : ℕ

-- A new job at the end of the list: its one strong reference is the pool's.
unfoldable pub track : ℕ → List JobRef → List JobRef
track job ws = ws ++ record { job = job; strong = 1; in_flight = 0 } ∷ []

abbrev pub is_live : JobRef → Bool
is_live w = ltb 0 w.strong

-- `Weak::upgrade` counts the new reference.
unfoldable pub upgrade : JobRef → Option JobRef
upgrade w = if is_live w then some (record w { strong = w.strong + 1 }) else none

unfoldable pub first_idle : List JobRef → Option JobRef
unfolding upgrade
first_idle [] = none
first_idle (w ∷ ws) =
    let rest = first_idle ws in
    elim (upgrade w) [
      | none ↦ rest
      | some arc ↦
          if arc.in_flight == u32_max
          then rest
          else if (arc.in_flight == 0) && (arc.strong == 2)
          then some arc
          else rest
    ]

-- The result and the list without its dead entries.
unfoldable pub peek_idle : List JobRef → Option JobRef × List JobRef
unfolding first_idle
peek_idle ws = let live = retain is_live ws in (first_idle live, live)

-- The two `filter_map`s of the scan.
unfoldable pub routable : List JobRef → List JobRef
unfolding upgrade
routable [] = []
routable (w ∷ ws) =
    let rest = routable ws in
    elim (upgrade w) [
      | none ↦ rest
      | some arc ↦ if arc.in_flight == u32_max then rest else arc ∷ rest
    ]

insert_by_load : JobRef → List JobRef → List JobRef
insert_by_load a [] = a ∷ []
insert_by_load a (b ∷ bs) =
    let rest = insert_by_load a bs in if leb a.in_flight b.in_flight then a ∷ b ∷ bs else b ∷ rest

-- `sort_by_key`, which is stable.
unfoldable pub sort_by_load : List JobRef → List JobRef
unfolding insert_by_load
sort_by_load [] = []
sort_by_load (a ∷ bs) = insert_by_load a (sort_by_load bs)

unfoldable pub least_busy : ℕ → List JobRef → List JobRef × List JobRef
unfolding routable sort_by_load
least_busy limit ws =
    let live = retain is_live ws in (take limit (sort_by_load (routable live)), live)
