-- ===== src/Time.antt =====
-- Timestamp (zbluenet/zbluenet/src/zbluenet/timestamp.{h,cc}): seconds and nanoseconds since the
-- epoch. Times are after the epoch and so are never negative; milliseconds added are not negative
-- either, as TimerHeap::addTimer makes sure. No sum comes near 2 ^ 63.
pub mod Laws
mod Tests
use zbluenet.Base.{ℕ, ◌+◌, ◌-◌, ◌*◌, ◌/◌, ◌%◌, Bool, ◌&&◌, not, leb, ltb, ◌==◌, if◌then◌else◌}

pub record Timestamp : Type 0 where
  pub second : ℕ
  pub nanosecond : ℕ

-- `setNow`, at a reading of the system clock in nanoseconds.
unfoldable pub set_now : ℕ → Timestamp
set_now nanosecond =
    let second = nanosecond / 1000000000 in
    record { second = second; nanosecond = nanosecond - second * 1000000000 }

unfoldable pub get_millisecond : Timestamp → ℕ
get_millisecond t = t.nanosecond / 1000000

-- `operator+=` and `operator+`.
unfoldable pub add_millisecond : Timestamp → ℕ → Timestamp
add_millisecond t millisecond =
    let second = t.second + millisecond / 1000 in
    let nanosecond = t.nanosecond + millisecond % 1000 * 1000000 in
    if leb 1000000000 nanosecond
    then record { second = second + 1; nanosecond = nanosecond - 1000000000 }
    else record { second = second; nanosecond = nanosecond }

-- `operator<`.
unfoldable pub less : Timestamp → Timestamp → Bool
less t other =
    if not (t.second == other.second)
    then ltb t.second other.second
    else ltb t.nanosecond other.nanosecond

unfoldable pub millisecond_less : Timestamp → Timestamp → Bool
unfolding get_millisecond
millisecond_less t other =
    if not (t.second == other.second)
    then ltb t.second other.second
    else ltb (get_millisecond t) (get_millisecond other)

unfoldable pub millisecond_equal : Timestamp → Timestamp → Bool
unfolding get_millisecond
millisecond_equal t other =
    (t.second == other.second) && (get_millisecond t == get_millisecond other)

unfoldable pub distance_second : Timestamp → Timestamp → ℕ
distance_second t other =
    if ltb other.second t.second then t.second - other.second else other.second - t.second

-- The difference of the milliseconds may be negative, the sum is not: it is subtracted last.
span : Timestamp → Timestamp → ℕ
unfolding get_millisecond
span bigger smaller =
    (bigger.second - smaller.second) * 1000 + get_millisecond bigger - get_millisecond smaller

unfoldable pub distance_millisecond : Timestamp → Timestamp → ℕ
unfolding less span
distance_millisecond t other = if less t other then span other t else span t other
