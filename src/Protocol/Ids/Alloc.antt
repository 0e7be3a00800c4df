-- ===== src/Protocol/Ids/Alloc.antt =====
-- src/protocol/codec.rs: `IdAllocator`. The clock's nanoseconds and the process id are arguments.
use Prim.Native.String.{◌++◌}
use mapepire_rs.Prelude.{ℕ, zero, suc, ◌+◌, ◌/◌, ◌%◌, ◌^◌, String, List, [], ◌∷◌, u64_mod}
use mapepire_rs.Prelude.Text.{show_ℕ, hex_text}

pub record IdAllocator : Type 0 where
  pub prefix : String
  pub counter : ℕ  -- AtomicU64

-- Byte `i` of a number in little-endian order.
abbrev le_byte : ℕ → ℕ → ℕ
le_byte n i = n / 256 ^ i % 256

-- Four bytes of the nanoseconds, then two of the process id.
unfoldable pub prefix_bytes : ℕ → ℕ → List ℕ
prefix_bytes nanos pid =
    le_byte nanos 0
    ∷ le_byte nanos 1
    ∷ le_byte nanos 2
    ∷ le_byte nanos 3
    ∷ le_byte pid 0
    ∷ le_byte pid 1
    ∷ []

unfoldable pub new : ℕ → ℕ → IdAllocator
unfolding prefix_bytes hex_text
new nanos pid = record { prefix = hex_text (prefix_bytes nanos pid); counter = 0 }

-- `next`: the id, and the allocator with its counter one further, modulo 2^64.
unfoldable pub next : IdAllocator → String × IdAllocator
next a = (a.prefix ++ ("-" ++ show_ℕ a.counter), record a { counter = (a.counter + 1) % u64_mod })

-- The allocator after a number of calls.
unfoldable pub after_calls : ℕ → IdAllocator → IdAllocator
unfolding next
after_calls zero a = a
after_calls (suc n) a = (next (after_calls n a)).1

-- `format!("close-{cont_id}")`.
unfoldable pub close_id : String → String
close_id cont_id = "close-" ++ cont_id
