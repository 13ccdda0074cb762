-- ===== src/Time/Laws.antt =====
-- Timestamps stand for numbers of nanoseconds, and their operations for those of the numbers.
use zbluenet.Base.{ℕ, ◌+◌, ◌-◌, ◌*◌, ◌/◌, ◌<◌, ◌≡◌, ltb, ◌==◌, arith, if◌then◌else◌}
use zbluenet.Time.{
  Timestamp, set_now, add_millisecond, less, millisecond_less, millisecond_equal,
  distance_millisecond,
}

abbrev pub nanos : Timestamp → ℕ
nanos t = t.second * 1000000000 + t.nanosecond

abbrev pub millis : Timestamp → ℕ
millis t = nanos t / 1000000

abbrev pub IsNormal : Timestamp → Type 0
IsNormal t = t.nanosecond < 1000000000

-- setNow splits the nanoseconds of the clock into a normal timestamp without loss.
pub set_now_lem : (n : ℕ) → IsNormal (set_now n) × (nanos (set_now n) ≡ n)
unfolding set_now
set_now_lem n = omega arith

-- Milliseconds added to a normal timestamp give a normal one that is later by that time.
pub add_millisecond_lem :
    (t : Timestamp) (ms : ℕ)
    → IsNormal t
    → IsNormal (add_millisecond t ms) × (nanos (add_millisecond t ms) ≡ nanos t + ms * 1000000)
unfolding add_millisecond
add_millisecond_lem t ms h = ground arith

-- Normal timestamps are compared as their numbers of nanoseconds are.
pub less_lem : (t u : Timestamp) → IsNormal t → IsNormal u → less t u ≡ ltb (nanos t) (nanos u)
unfolding less
less_lem t u h k = ground arith

pub millisecond_less_lem :
    (t u : Timestamp) → IsNormal t → IsNormal u → millisecond_less t u ≡ ltb (millis t) (millis u)
unfolding millisecond_less
millisecond_less_lem t u h k = ground arith

pub millisecond_equal_lem :
    (t u : Timestamp) → IsNormal t → IsNormal u → millisecond_equal t u ≡ (millis t == millis u)
unfolding millisecond_equal
millisecond_equal_lem t u h k = ground arith

-- distanceMillisecond of normal timestamps is the difference of their numbers of whole
-- milliseconds.
pub distance_millisecond_lem :
    (t u : Timestamp)
    → IsNormal t
    → IsNormal u
    → distance_millisecond t u
      ≡ (if ltb (nanos t) (nanos u) then millis u - millis t else millis t - millis u)
unfolding distance_millisecond
distance_millisecond_lem t u h k = ground arith
