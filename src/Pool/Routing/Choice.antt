-- ===== src/Pool/Routing/Choice.antt =====
-- src/pool/runtime.rs and src/pool/routing.rs: the candidates of the second tier and the job that
-- it picks.
use mapepire_rs.Prelude.{
  ℕ, zero, suc, ◌≤◌, ◌<◌, ◌≡◌, ◌≢◌, refl, sym, subst, true, Option, none, some, List, [], ◌∷◌,
  arith, ltb, ltb→lt, min, head?, take, retain, length, length-take-le, All, u32_max, Bool-cases,
  inl, inr,
}
use mapepire_rs.Pool.Registry.{JobRef, is_live, routable, sort_by_load, least_busy}
use mapepire_rs.Pool.Registry.Scan.{
  Comes, AtLeast, Sorted, Loaded, All-sort_by_load, All-take, AtLeast-mono, sort_by_load-Sorted,
  AtLeast-of_sort, Loaded-of_routable, Comes-routable, unreserved-routable, Sorted-take,
}
use mapepire_rs.Pool.Routing.{saturation_threshold, pick_unsaturated}

-- The candidates are live entries, at most `limit`, in ascending order of their counters, and none
-- is marked as reserved.
pub least_busy_candidates :
    (limit : ℕ) (ws : List JobRef)
    → let found = (least_busy limit ws).0 in
      (length found ≤ limit)
      × Sorted found
      × All (λ j. j.in_flight ≢ u32_max) found
      × All (λ j. Comes j ws) found
unfolding least_busy
least_busy_candidates limit ws =
    let js = routable (retain is_live ws) in
    (
      length-take-le limit (sort_by_load js),
      Sorted-take limit (sort_by_load js) (sort_by_load-Sorted js),
      All-take (λ j. j.in_flight ≢ u32_max) limit (sort_by_load js)
          (All-sort_by_load (λ j. j.in_flight ≢ u32_max) js
            (unreserved-routable (retain is_live ws))),
      All-take (λ j. Comes j ws) limit (sort_by_load js)
          (All-sort_by_load (λ j. Comes j ws) js (Comes-routable ws)),
    )

abbrev unsaturated : List JobRef → List JobRef
unsaturated = retain (λ j. ltb j.in_flight saturation_threshold)

-- Candidates that are all saturated leave none.
unsaturated-AtLeast : (bs : List JobRef) → AtLeast saturation_threshold bs → unsaturated bs ≡ []
unsaturated-AtLeast [] ps = refl
unsaturated-AtLeast (b ∷ bs) ps = ground (arith, unsaturated-AtLeast bs)

-- What a pick says of the registry.
abbrev pub Picks : Option JobRef → List JobRef → Type 0
Picks none ws = Loaded saturation_threshold ws
Picks (some j) ws = (j.in_flight < saturation_threshold) × Comes j ws × Loaded j.in_flight ws

unsaturated-first :
    (k : JobRef) (ks : List JobRef)
    → ltb k.in_flight 32 ≡ true
    → unsaturated (k ∷ ks) ≡ k ∷ unsaturated ks
unsaturated-first k ks e = ground arith

min-suc : (n : ℕ) → suc (min n 7) ≡ min (suc n) 8
min-suc n = ground arith

pick_of_Sorted :
    (n : ℕ) (ws ks : List JobRef)
    → Sorted ks
    → ((k : ℕ) → k ≤ u32_max → AtLeast k ks → Loaded k ws)
    → All (λ j. Comes j ws) ks
    → Picks (head? (unsaturated (take (suc n) ks))) ws
pick_of_Sorted n ws [] sorted loaded comes = loaded saturation_threshold (omega arith) tt
pick_of_Sorted n ws (k ∷ ks) sorted loaded comes = elim (Bool-cases (ltb k.in_flight 32)) [
  | inl e ↦
      subst (λ found. Picks (head? found) ws) (sym (unsaturated-first k (take n ks) e))
        (
          ltb→lt k.in_flight 32 e,
          comes.0,
          loaded k.in_flight (ground arith) (omega arith, sorted.0),
        )
  | inr e ↦
      let above = AtLeast-mono 32 k.in_flight ks (ground arith) sorted.0 in
      subst (λ found. Picks (head? found) ws)
        (sym (
          unsaturated-AtLeast (k ∷ take n ks)
            (ground arith, All-take (λ w. 32 ≤ w.in_flight) n ks above)))
        (loaded 32 (omega arith) (ground arith, above))
]

-- In a pool that has connections, the second tier picks a live job below the saturation threshold
-- with the least counter of all live jobs, reserved ones included; it picks none only when the
-- counter of every live job is at least 32.
pub pick_unsaturated_least :
    (size : ℕ) (ws : List JobRef) → 0 < size → Picks (pick_unsaturated size ws).0 ws
unfolding pick_unsaturated least_busy
pick_unsaturated_least zero ws h = absurd (omega arith)
pick_unsaturated_least (suc n) ws h =
    let js = routable (retain is_live ws) in
    subst (λ limit. Picks (head? (unsaturated (take limit (sort_by_load js)))) ws) (min-suc n)
      (pick_of_Sorted (min n 7) ws (sort_by_load js) (sort_by_load-Sorted js)
        (λ k le ps. Loaded-of_routable k ws le (AtLeast-of_sort k js ps))
        (All-sort_by_load (λ j. Comes j ws) js (Comes-routable ws)))
