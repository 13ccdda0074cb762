-- ===== src/Time/Tests.antt =====
-- Times at which the nanoseconds carry.
use zbluenet.Base.{◌≡◌, refl, true}
use zbluenet.Time.{Timestamp, add_millisecond, less}

abbrev early : Timestamp
early = record { second = 7; nanosecond = 999000000 }

carries : add_millisecond early 1500 ≡ record { second = 9; nanosecond = 499000000 }
unfolding add_millisecond
carries = refl

is_later : less early (add_millisecond early 1) ≡ true
unfolding add_millisecond less
is_later = refl
