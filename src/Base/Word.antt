-- ===== src/Base/Word.antt =====
-- `size_t` and the unsigned integers, with their wrap-around written out.
use Prim.Native.Nat.{ℕ, ◌+◌, ◌-◌, ◌*◌, ◌/◌, ◌%◌, ◌^◌}

abbrev pub word : ℕ
word = 2 ^ 64

-- `+`, `-` and `*` on `size_t`.
abbrev pub add_size : ℕ → ℕ → ℕ
add_size a b = (a + b) % word

abbrev pub sub_size : ℕ → ℕ → ℕ
sub_size a b = (a + word - b) % word

abbrev pub mul_size : ℕ → ℕ → ℕ
mul_size a b = (a * b) % word

-- `(uint8_t)(v >> k)`.
abbrev pub byte_at : ℕ → ℕ → ℕ
byte_at v k = v / 2 ^ k % 256

-- `(uintw_t)b << k`, at the width `w` of the type that the shift is made in.
abbrev pub shl : ℕ → ℕ → ℕ → ℕ
shl w b k = b * 2 ^ k % 2 ^ w
