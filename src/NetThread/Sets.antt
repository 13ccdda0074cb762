-- ===== src/NetThread/Sets.antt =====
-- The ids of std::set, in ascending order.
use zbluenet.Base.{ℕ, ◌+◌, ◌≤◌, ◌<◌, arith, List, [], ◌∷◌, length, All}
use zbluenet.NetThread.{insert, erase}
use zbluenet.NetThread.Encoding.{IsAscending}

-- `insert` and `erase` keep the order, and with it that there is no id twice.
above-insert :
    (z x : ℕ) (xs : List ℕ) → z < x → All (λ y. z < y) xs → All (λ y. z < y) (insert x xs)
above-insert z x [] h all = (h, tt)
above-insert z x (y ∷ ys) h (less, rest) = ground (arith, above-insert z x ys h rest)

above_trans : (x y : ℕ) (ys : List ℕ) → x < y → All (λ z. y < z) ys → All (λ z. x < z) ys
above_trans x y [] h all = tt
above_trans x y (z ∷ zs) h (less, rest) = (omega arith, above_trans x y zs h rest)

pub insert-IsAscending : (x : ℕ) (xs : List ℕ) → IsAscending xs → IsAscending (insert x xs)
insert-IsAscending x [] v = (tt, tt)
insert-IsAscending x (y ∷ ys) (above, v) =
    ground (arith, insert-IsAscending x ys v, above-insert y x ys, above_trans x y ys)

above-erase : (z x : ℕ) (xs : List ℕ) → All (λ y. z < y) xs → All (λ y. z < y) (erase x xs)
above-erase z x [] all = tt
above-erase z x (y ∷ ys) (less, rest) = ground (arith, above-erase z x ys rest)

pub erase-IsAscending : (x : ℕ) (xs : List ℕ) → IsAscending xs → IsAscending (erase x xs)
erase-IsAscending x [] v = tt
erase-IsAscending x (y ∷ ys) (above, v) =
    ground (arith, erase-IsAscending x ys v, above-erase y x ys)

pub length-insert : (x : ℕ) (xs : List ℕ) → length (insert x xs) ≤ length xs + 1
length-insert x [] = omega arith
length-insert x (y ∷ ys) = ground (arith, length-insert x ys)

pub length-erase : (x : ℕ) (xs : List ℕ) → length (erase x xs) ≤ length xs
length-erase x [] = omega arith
length-erase x (y ∷ ys) = ground (arith, length-erase x ys)
