-- ===== src/SocketIds/Tests.antt =====
-- The ids of the first sockets.
use zbluenet.Base.{◌+◌, ◌≡◌, refl, done}
use zbluenet.SocketIds.{next_id, next_value}

first : next_id 0 9 ≡ done (4294967296 + 9, 1)
unfolding next_id next_value
first = refl

last : next_id 2147483646 9 ≡ done (9223372032559808512 + 9, 2147483647)
unfolding next_id next_value
last = refl
