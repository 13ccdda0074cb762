-- ===== src/SocketIds/Laws.antt =====
-- A socket's id tells its counter and its descriptor.
use zbluenet.Base.{ℕ, ◌+◌, ◌*◌, ◌/◌, ◌%◌, ◌^◌, ◌-◌, ◌<◌, ◌≡◌, refl, arith, done, fault}
use zbluenet.Base.Word.{word}
use zbluenet.SocketIds.{next_id, next_value}

-- Below the end of the counter, nextId with a descriptor below 2^32 gives an id that is not
-- negative and holds the new counter and the descriptor, and counts on.
pub next_id_split :
    (value fd : ℕ)
    → value + 1 < 2 ^ 31
    → fd < 2 ^ 32
    → (id : ℕ) × (next_id value fd ≡ done (id, value + 1))
      × (id < 2 ^ 63)
      × (id / 2 ^ 32 ≡ value + 1)
      × (id % 2 ^ 32 ≡ fd)
unfolding next_id next_value
next_id_split value fd h k =
    (((value + 1) * 2 ^ 32 + fd) % word, ground arith, omega arith, omega arith, omega arith)

-- At the end of the counter the increment overflows.
next_id_overflows : (fd : ℕ) → next_id (2 ^ 31 - 1) fd ≡ fault
unfolding next_id next_value
next_id_overflows fd = refl
