-- ===== src/Pool/Reserved/Sentinel.antt =====
-- src/pool/reserved.rs with src/pool/routing.rs: what the counter of a held connection tells the
-- scans, while the dispatcher counts requests on the same counter.
use mapepire_rs.Prelude.{
  ℕ, zero, suc, ◌+◌, ◌-◌, ◌*◌, ◌%◌, ◌<◌, ◌≡◌, refl, ◌∙◌, some, List, ◌∷◌, arith, u32_max, u32_mod,
  add_u32, sub_u32,
}
use mapepire_rs.Client.{Session}
use mapepire_rs.Pool.Registry.{JobRef, upgrade, first_idle, peek_idle}
use mapepire_rs.Pool.Reserved.{Reserved, reserve, request_taken, request_settled, drop_reserved}

-- The connection with `n` requests taken and none settled.
unfoldable pub busy : ℕ → Reserved → Reserved
unfolding request_taken
busy zero c = c
busy (suc n) c = request_taken (busy n c)

-- All of them settled.
unfoldable pub settled : ℕ → Reserved → Reserved
unfolding request_settled
settled zero c = c
settled (suc n) c = settled n (request_settled c)

in_flight-busy :
    (n : ℕ) (conn : JobRef) (s : Session)
    → (busy n (reserve conn s)).conn.in_flight ≡ (u32_max + n) % u32_mod
unfolding busy request_taken add_u32 reserve
in_flight-busy zero conn s = refl
in_flight-busy (suc n) conn s = omega (arith, in_flight-busy n conn s)

strong-busy :
    (n : ℕ) (conn : JobRef) (s : Session) → (busy n (reserve conn s)).conn.strong ≡ conn.strong
unfolding busy request_taken reserve
strong-busy zero conn s = refl
strong-busy (suc n) conn s = strong-busy n conn s

in_flight-settled :
    (n : ℕ) (c : Reserved)
    → c.conn.in_flight < u32_mod
    → (settled n c).conn.in_flight ≡ (c.conn.in_flight + n * u32_max) % u32_mod
unfolding settled request_settled sub_u32
in_flight-settled zero c h = omega arith
in_flight-settled (suc n) c h = in_flight-settled n (request_settled c) (omega arith) ∙ omega arith

-- A reserved connection that is the first entry of the registry, with one strong reference: while it
-- has nothing in flight the first scan passes it over, whatever the other jobs are. With one request
-- in flight its counter has wrapped to zero, and the scan returns it as idle.
pub sentinel_wraps :
    (conn : JobRef) (s : Session) (ws : List JobRef)
    → conn.strong ≡ 1
    → let quiet = (reserve conn s).conn in
      let taken = (busy 1 (reserve conn s)).conn in
      ((peek_idle (quiet ∷ ws)).0 ≡ (peek_idle ws).0)
      × ((peek_idle (taken ∷ ws)).0 ≡ some (record conn { strong = 2; in_flight = 0 }))
unfolding peek_idle first_idle upgrade busy request_taken add_u32 reserve
sentinel_wraps conn s ws h = (ground (arith, h), ground (arith, h))

-- Dropping a reserved connection while `n` requests are outstanding, at least one and fewer than
-- 2 ^ 32, leaves a counter that is 2 ^ 32 - n when they are settled: not zero. For one request it
-- is the mark of a reserved connection.
pub early_drop_miscounts :
    (n : ℕ) (conn : JobRef) (s : Session)
    → 0 < n
    → n < u32_mod
    → let freed = (drop_reserved (busy n (reserve conn s))).0 in
      let c = record (reserve conn s) { conn = freed } in (settled n c).conn.in_flight ≡ u32_mod - n
unfolding drop_reserved
early_drop_miscounts n conn s h k = in_flight-settled n _ (omega arith) ∙ omega arith
