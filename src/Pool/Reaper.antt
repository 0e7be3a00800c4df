-- ===== src/Pool/Reaper.antt =====
-- src/pool/runtime.rs: the idle reaper. A `Duration` is a number of nanoseconds, and so is a time
-- since the start of the reaper; the ticks come at the multiples of the period.
use native.Mathlib.Nat.{div-add-mod', mod-lt}
use mapepire_rs.Prelude.{
  ℕ, zero, suc, ◌+◌, ◌-◌, ◌*◌, ◌/◌, ◌≤◌, ◌<◌, ◌≡◌, refl, ap, ◌∙◌, Option, none, some, List, [], ◌∷◌,
  arith, ltb, ◌==◌, if◌then◌else◌, retain,
}

abbrev pub second : ℕ
second = 1000000000

-- `Ord::clamp`.
abbrev pub clamp : ℕ → ℕ → ℕ → ℕ
clamp lo hi n = if ltb n lo then lo else if ltb hi n then hi else n

unfoldable pub reaper_period : ℕ → Option ℕ
reaper_period idle_timeout =
    if idle_timeout == 0 then none else some (clamp second (60 * second) (idle_timeout / 4))

-- An idle object, with the time of its last use.
pub record IdleObject : Type 0 where
  pub job : ℕ
  pub last_use : ℕ

-- One tick: `retain` with the predicate `last_used() < idle_timeout`.
unfoldable pub sweep : ℕ → ℕ → List IdleObject → List IdleObject
sweep idle_timeout now objects = retain (λ o. ltb (now - o.last_use) idle_timeout) objects

-- The ticks `first`, `first + 1`, … of the loop, `ticks` of them; nobody uses the objects meanwhile.
unfoldable pub reap : (idle_timeout period ticks first : ℕ) → List IdleObject → List IdleObject
unfolding sweep
reap idle_timeout period zero first objects = objects
reap idle_timeout period (suc ticks) first objects =
    reap idle_timeout period ticks (suc first) (sweep idle_timeout (first * period) objects)

sweep-young :
    (idle_timeout now : ℕ) (o : IdleObject)
    → now < o.last_use + idle_timeout
    → 0 < idle_timeout
    → sweep idle_timeout now (o ∷ []) ≡ o ∷ []
unfolding sweep
sweep-young idle_timeout now o h pos = ground arith

sweep-old :
    (idle_timeout now : ℕ) (o : IdleObject)
    → o.last_use + idle_timeout ≤ now
    → sweep idle_timeout now (o ∷ []) ≡ []
unfolding sweep
sweep-old idle_timeout now o h = ground arith

-- An object stays over `ticks` ticks that all come before it is due.
reap-young :
    (idle_timeout period ticks first : ℕ) (o : IdleObject)
    → 0 < idle_timeout
    → (first + ticks) * period < o.last_use + idle_timeout + period
    → reap idle_timeout period ticks first (o ∷ []) ≡ o ∷ []
unfolding reap
reap-young idle_timeout period zero first o pos h = refl
reap-young idle_timeout period (suc ticks) first o pos h =
    ap (reap idle_timeout period ticks (suc first))
      (sweep-young idle_timeout (first * period) o (omega arith) pos)
    ∙ reap-young idle_timeout period ticks (suc first) o pos (omega arith)

-- The period is a quarter of the timeout within one second and one minute, and there is none for a
-- timeout of zero.
pub reaper_period_bounds :
    (idle_timeout period : ℕ)
    → reaper_period idle_timeout ≡ some period
    → (second ≤ period)
      × (period ≤ 60 * second)
      × (4 * second ≤ idle_timeout → 4 * period ≤ idle_timeout)
unfolding reaper_period
reaper_period_bounds idle_timeout period h = ground (arith, h)

reap-snoc :
    (idle_timeout period ticks first : ℕ) (objects : List IdleObject)
    → reap idle_timeout period (suc ticks) first objects
      ≡ sweep idle_timeout ((first + ticks) * period) (reap idle_timeout period ticks first objects)
unfolding reap
reap-snoc idle_timeout period zero first objects =
    ap (λ k. sweep idle_timeout (k * period) objects) (omega arith)
reap-snoc idle_timeout period (suc ticks) first objects =
    reap-snoc idle_timeout period ticks (suc first) (sweep idle_timeout (first * period) objects)
    ∙ ap (λ k. sweep idle_timeout (k * period) (reap idle_timeout period (suc ticks) first objects))
        (omega arith)

one_add : (n : ℕ) → 1 + n ≡ suc n
one_add n = omega arith

-- With the period that the timeout has, an object that nobody uses is still there after `n` ticks of
-- the reaper and gone after one more, for some `n`. That tick comes no sooner than the timeout after
-- the last use, and at most a quarter of the timeout later, for a timeout of four seconds or more.
pub reaped_in_time :
    (idle_timeout period : ℕ) (o : IdleObject)
    → reaper_period idle_timeout ≡ some period
    → 4 * second ≤ idle_timeout
    → (n : ℕ) × (reap idle_timeout period n 1 (o ∷ []) ≡ o ∷ [])
      × (reap idle_timeout period (suc n) 1 (o ∷ []) ≡ [])
      × (o.last_use + idle_timeout ≤ suc n * period)
      × (4 * (suc n * period) ≤ 4 * o.last_use + 5 * idle_timeout)
reaped_in_time idle_timeout period o h large =
    let due = o.last_use + idle_timeout in
    let n = (due - 1) / period in
    let (low, high, quarter) = reaper_period_bounds idle_timeout period h in
    let split = div-add-mod' (due - 1) period in
    let below = mod-lt (due - 1) {m = period} (omega arith) in
    let stays = reap-young idle_timeout period n 1 o (omega arith) (omega (arith, split)) in
    let arrives : due ≤ suc n * period = omega (arith, split, below) in
    (
      n,
      stays,
      reap-snoc idle_timeout period n 1 (o ∷ [])
          ∙ ap (λ k. sweep idle_timeout (k * period) (reap idle_timeout period n 1 (o ∷ [])))
              (one_add n)
          ∙ ap (sweep idle_timeout (suc n * period)) stays
          ∙ sweep-old idle_timeout (suc n * period) o arrives,
      arrives,
      omega (arith, split, quarter large),
    )
