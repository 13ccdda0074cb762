-- ===== src/SocketIds.antt =====
-- SocketIdAllocator (zbluenet/zbluenet/src/zbluenet/net/socket_id_allocator.h): a 32-bit counter,
-- in the upper half of a 64-bit id, and the descriptor in the lower. The counter starts at 0.
pub mod Laws
mod Tests
use zbluenet.Base.{ℕ, ◌+◌, ◌*◌, ◌%◌, ◌^◌, leb, if◌then◌else◌, Outcome, done, fault, ◌>>=◌}
use zbluenet.Base.Word.{word}

-- `++value_` of an int32_t, which must not overflow. So the counter is not negative behind it, and
-- the branch that sets it to 0 is never taken.
unfoldable pub next_value : ℕ → Outcome ℕ
next_value value = if leb (2 ^ 31) (value + 1) then fault else done (value + 1)

-- The id, and the counter after it.
unfoldable pub next_id : ℕ → ℕ → Outcome (ℕ × ℕ)
unfolding next_value
next_id value fd = next_value value >>= λ next. done ((next * 2 ^ 32 + fd) % word, next)
