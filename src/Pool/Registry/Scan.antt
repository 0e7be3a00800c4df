-- ===== src/Pool/Registry/Scan.antt =====
-- src/pool/routing.rs and src/pool/runtime.rs: which jobs the two scans find.
use mapepire_rs.Prelude.{
  ℕ, zero, suc, ◌+◌, ◌≤◌, ◌<◌, ◌≡◌, ◌≢◌, refl, subst, Bool-cases, leb→le, sym, Bool, false, ◌&&◌,
  Option, none, some, List, [], ◌∷◌, arith, leb, ◌==◌, take, retain, All, u32_max, ◌⊎◌, inl, inr,
}
use mapepire_rs.Pool.Registry.{
  JobRef, is_live, upgrade, first_idle, peek_idle, routable, insert_by_load, sort_by_load,
}

-- An entry whose job nobody holds and which has no request in flight.
abbrev pub is_free : JobRef → Bool
is_free w = (w.strong == 1) && (w.in_flight == 0)

-- `j` is a live entry with one more reference.
abbrev pub Comes : JobRef → List JobRef → Type 0
Comes j [] = ⊥
Comes j (w ∷ ws) = ((0 < w.strong) × (j ≡ record w { strong = w.strong + 1 })) ⊎ Comes j ws

abbrev pub FindsIdle : Option JobRef → List JobRef → Type 0
FindsIdle none ws = All (λ w. is_free w ≡ false) ws
FindsIdle (some j) ws = (j.in_flight ≡ 0) × (j.strong ≡ 2) × Comes j ws

module _ (P : JobRef → Type 0) where
  All-insert_by_load :
      (a : JobRef) (bs : List JobRef) → P a → All P bs → All P (insert_by_load a bs)
  unfolding insert_by_load
  All-insert_by_load a [] p ps = (p, ps)
  All-insert_by_load a (b ∷ bs) p ps = ground (arith, All-insert_by_load a bs p ps.1)

  pub All-sort_by_load : (bs : List JobRef) → All P bs → All P (sort_by_load bs)
  unfolding sort_by_load
  All-sort_by_load [] ps = ps
  All-sort_by_load (b ∷ bs) ps =
      All-insert_by_load b (sort_by_load bs) ps.0 (All-sort_by_load bs ps.1)

  pub All-take : (n : ℕ) (bs : List JobRef) → All P bs → All P (take n bs)
  All-take zero bs ps = tt
  All-take (suc n) [] ps = ps
  All-take (suc n) (b ∷ bs) ps = (ps.0, All-take n bs ps.1)

-- A bound from below on the counters.
abbrev pub AtLeast : ℕ → List JobRef → Type 0
AtLeast k = All (λ w. k ≤ w.in_flight)

abbrev pub Sorted : List JobRef → Type 0
Sorted [] = Unit {0}
Sorted (a ∷ bs) = AtLeast a.in_flight bs × Sorted bs

pub AtLeast-mono : (k m : ℕ) (bs : List JobRef) → k ≤ m → AtLeast m bs → AtLeast k bs
AtLeast-mono k m [] h ps = tt
AtLeast-mono k m (b ∷ bs) h ps = (omega (arith, ps.0), AtLeast-mono k m bs h ps.1)

AtLeast-of_insert :
    (k : ℕ) (a : JobRef) (bs : List JobRef)
    → AtLeast k (insert_by_load a bs)
    → (k ≤ a.in_flight) × AtLeast k bs
unfolding insert_by_load
AtLeast-of_insert k a [] = λ ps. ps
AtLeast-of_insert k a (b ∷ bs) = elim (Bool-cases (leb a.in_flight b.in_flight)) [
  | inl e ↦ rw (e, insert_by_load) (λ ps. ps)
  | inr e ↦
      rw (e, insert_by_load)
        (λ ps. let (here, there) = AtLeast-of_insert k a bs ps.1 in (here, (ps.0, there)))
]

pub AtLeast-of_sort : (k : ℕ) (bs : List JobRef) → AtLeast k (sort_by_load bs) → AtLeast k bs
unfolding sort_by_load
AtLeast-of_sort k [] ps = ps
AtLeast-of_sort k (b ∷ bs) ps =
    let (here, there) = AtLeast-of_insert k b (sort_by_load bs) ps in
    (here, AtLeast-of_sort k bs there)

insert_by_load-Sorted : (a : JobRef) (bs : List JobRef) → Sorted bs → Sorted (insert_by_load a bs)
unfolding insert_by_load
insert_by_load-Sorted a [] s = (tt, tt)
insert_by_load-Sorted a (b ∷ bs) s = elim (Bool-cases (leb a.in_flight b.in_flight)) [
  | inl e ↦
      rw (e, insert_by_load)
        (
          (
            leb→le a.in_flight b.in_flight e,
            AtLeast-mono a.in_flight b.in_flight bs (leb→le a.in_flight b.in_flight e) s.0,
          ),
          s,
        )
  | inr e ↦
      rw (e, insert_by_load)
        (
          All-insert_by_load (λ w. b.in_flight ≤ w.in_flight) a bs (ground arith) s.0,
          insert_by_load-Sorted a bs s.1,
        )
]

pub sort_by_load-Sorted : (bs : List JobRef) → Sorted (sort_by_load bs)
unfolding sort_by_load
sort_by_load-Sorted [] = tt
sort_by_load-Sorted (b ∷ bs) = insert_by_load-Sorted b (sort_by_load bs) (sort_by_load-Sorted bs)

-- The first scan finds a live entry with nothing in flight and one strong reference; it finds none
-- only when there is no such entry.
pub peek_idle_finds : (ws : List JobRef) → FindsIdle (peek_idle ws).0 ws
unfolding peek_idle first_idle upgrade
peek_idle_finds [] = tt
peek_idle_finds (w ∷ ws) = ground (arith, peek_idle_finds ws)

-- Every live entry has at least `k` requests in flight.
abbrev pub Loaded : ℕ → List JobRef → Type 0
Loaded k = All (λ w. (w.strong ≡ 0) ⊎ (k ≤ w.in_flight))

pub Loaded-of_routable :
    (k : ℕ) (ws : List JobRef)
    → k ≤ u32_max
    → AtLeast k (routable (retain is_live ws))
    → Loaded k ws
unfolding routable upgrade
Loaded-of_routable k [] h ps = tt
Loaded-of_routable k (w ∷ ws) h ps = ground (arith, Loaded-of_routable k ws h)

Comes-weaken :
    (w : JobRef) (ws js : List JobRef) → All (λ j. Comes j ws) js → All (λ j. Comes j (w ∷ ws)) js
Comes-weaken w ws [] ps = tt
Comes-weaken w ws (j ∷ js) ps = (inr ps.0, Comes-weaken w ws js ps.1)

routable-step :
    (w : JobRef) (ws : List JobRef)
    → let rest = routable (retain is_live ws) in
      (routable (retain is_live (w ∷ ws)) ≡ rest)
      ⊎ ((0 < w.strong)
          × (routable (retain is_live (w ∷ ws)) ≡ record w { strong = w.strong + 1 } ∷ rest))
unfolding routable upgrade
routable-step w ws = ground arith

pub Comes-routable : (ws : List JobRef) → All (λ j. Comes j ws) (routable (retain is_live ws))
unfolding routable
Comes-routable [] = tt
Comes-routable (w ∷ ws) =
    let rest = Comes-weaken w ws (routable (retain is_live ws)) (Comes-routable ws) in
    elim (routable-step w ws) [
      | inl e ↦ subst (All (λ j. Comes j (w ∷ ws))) (sym e) rest
      | inr (live, e) ↦ subst (All (λ j. Comes j (w ∷ ws))) (sym e) (inl (live, refl), rest)
    ]

-- No job that is held reserved is routable.
pub unreserved-routable : (ws : List JobRef) → All (λ j. j.in_flight ≢ u32_max) (routable ws)
unfolding routable upgrade
unreserved-routable [] = tt
unreserved-routable (w ∷ ws) = ground (arith, unreserved-routable ws)

pub Sorted-take : (n : ℕ) (bs : List JobRef) → Sorted bs → Sorted (take n bs)
Sorted-take zero bs s = tt
Sorted-take (suc n) [] s = tt
Sorted-take (suc n) (b ∷ bs) s =
    (All-take (λ w. b.in_flight ≤ w.in_flight) n bs s.0, Sorted-take n bs s.1)
