-- ===== src/Exchange.antt =====
-- The encoding macros (zbluenet/zbluenet/src/zbluenet/exchange/macro.h). `p` and `left_bytes` of a
-- READ macro are the list of the bytes left, those of a WRITE macro the bytes written so far and
-- the room left. `none` is `return -1` out of the enclosing function. Integers are bit patterns.
pub mod Codec
pub mod Integers
pub mod Containers
pub mod RoundTrip
mod Tests
use zbluenet.Base.{
  ℕ, zero, suc, ◌+◌, ◌-◌, ◌%◌, ◌^◌, List, [], ◌∷◌, ◌++◌, Option, none, some, true, false, length,
  take, drop, get_or, ltb, leb, ◌==◌, if◌then◌else◌,
}
use zbluenet.Buffer.Integers.{value16, value32, value64, bytes16, bytes32, bytes64}

infixl 5 ◌>>=◌
abbrev pub ◌>>=◌ {ℓ κ} : {A : Type ℓ} {B : Type κ} → Option A → (A → Option B) → Option B
none >>= f = none
some a >>= f = f a

abbrev pub Reader {ℓ} : Type ℓ → Type ℓ
Reader A = List ℕ → Option (A × List ℕ)

pub record Cursor : Type 0 where
  pub written : List ℕ
  pub left_bytes : ℕ

-- What READ_INT8, 16, 32 and 64 share, and WRITE_INT8, 16, 32 and 64.
read_fixed : ℕ → (List ℕ → ℕ) → Reader ℕ
read_fixed n value p = if ltb (length p) n then none else some (value p, drop n p)

write_fixed : ℕ → List ℕ → Cursor → Option Cursor
write_fixed n bytes c =
    if ltb c.left_bytes n
    then none
    else some (record { written = c.written ++ bytes; left_bytes = c.left_bytes - n })

unfoldable pub read_int8 : Reader ℕ
unfolding read_fixed
read_int8 p = read_fixed 1 (λ q. get_or q 0 0) p

unfoldable pub write_int8 : ℕ → Cursor → Option Cursor
unfolding write_fixed
write_int8 v c = write_fixed 1 (v % 256 ∷ []) c

unfoldable pub read_int16 : Reader ℕ
unfolding read_fixed
read_int16 p = read_fixed 2 (value16 false) p

unfoldable pub write_int16 : ℕ → Cursor → Option Cursor
unfolding write_fixed
write_int16 v c = write_fixed 2 (bytes16 false v) c

unfoldable pub read_int32 : Reader ℕ
unfolding read_fixed
read_int32 p = read_fixed 4 (value32 false) p

unfoldable pub write_int32 : ℕ → Cursor → Option Cursor
unfolding write_fixed
write_int32 v c = write_fixed 4 (bytes32 false v) c

unfoldable pub read_int64 : Reader ℕ
unfolding read_fixed
read_int64 p = read_fixed 8 (value64 false) p

unfoldable pub write_int64 : ℕ → Cursor → Option Cursor
unfolding write_fixed
write_int64 v c = write_fixed 8 (bytes64 false v) c

-- The variable lengths: one byte, or a mark byte and a wider integer.
unfoldable pub read_int16v : Reader ℕ
read_int16v p = do (v, r) ← read_int8 p; if ltb (v % 2 ^ 16) 255 then some (v, r) else read_int16 r

unfoldable pub write_int16v : ℕ → Cursor → Option Cursor
write_int16v v c =
    if ltb (v % 2 ^ 16) 255 then write_int8 v c else write_int8 255 c >>= write_int16 v

unfoldable pub read_int32v : Reader ℕ
read_int32v p = do
  (v, r) ← read_int8 p
  if ltb (v % 2 ^ 32) 254
      then some (v, r)
      else if v % 2 ^ 32 == 254
      then read_int16 r
      else read_int32 r

unfoldable pub write_int32v : ℕ → Cursor → Option Cursor
write_int32v v c =
    if ltb (v % 2 ^ 32) 254
    then write_int8 v c
    else if leb (v % 2 ^ 32) 0xffff
    then write_int8 254 c >>= write_int16 v
    else write_int8 255 c >>= write_int32 v

unfoldable pub read_int64v : Reader ℕ
read_int64v p = do
  (v, r) ← read_int8 p
  if ltb (v % 2 ^ 64) 253
      then some (v, r)
      else if v % 2 ^ 64 == 253
      then read_int16 r
      else if v % 2 ^ 64 == 254
      then read_int32 r
      else read_int64 r

unfoldable pub write_int64v : ℕ → Cursor → Option Cursor
write_int64v v c =
    if ltb (v % 2 ^ 64) 253
    then write_int8 v c
    else if leb (v % 2 ^ 64) 0xffff
    then write_int8 253 c >>= write_int16 v
    else if leb (v % 2 ^ 64) 0xffffffff
    then write_int8 254 c >>= write_int32 v
    else write_int8 255 c >>= write_int64 v

-- An enumeration is read as an `int32_t` and cast.
unfoldable pub read_enum {ℓ} : {A : Type ℓ} → (ℕ → A) → Reader A
read_enum of_int p = do (v, r) ← read_int32v p; some (of_int v, r)

unfoldable pub write_enum : ℕ → Cursor → Option Cursor
unfolding write_int32v
write_enum v c = write_int32v v c

unfoldable pub read_length : Reader ℕ
read_length p = do
  (v, r) ← read_int8 p
  if ltb v 254 then some (v, r) else if v == 254 then read_int16 r else read_int32 r

unfoldable pub write_length : ℕ → Cursor → Option Cursor
write_length v c =
    if ltb v 254
    then write_int8 v c
    else if leb v 0xffff
    then write_int8 254 c >>= write_int16 v
    else if leb v 0xffffffff
    then write_int8 255 c >>= write_int32 v
    else none

unfoldable pub read_string : Reader (List ℕ)
read_string p = do
  (n, r) ← read_length p
  if ltb (length r) n then none else some (take n r, drop n r)

unfoldable pub write_string : List ℕ → Cursor → Option Cursor
write_string s c = do
  d ← write_length (length s) c
  if ltb d.left_bytes (length s)
      then none
      else some (record { written = d.written ++ s; left_bytes = d.left_bytes - length s })

module _ {ℓ} {A : Type ℓ} where
  -- `decode` and `encode` are the struct's own: the value and the number of bytes that it took,
  -- and the bytes that it put.
  unfoldable pub read_struct : (List ℕ → Option (A × ℕ)) → Reader A
  read_struct decode p = do (v, struct_size) ← decode p; some (v, drop struct_size p)

  unfoldable pub write_struct : (A → ℕ → Option (List ℕ)) → A → Cursor → Option Cursor
  write_struct encode v c = do
    bytes ← encode v c.left_bytes
    some (record { written = c.written ++ bytes; left_bytes = c.left_bytes - length bytes })

  -- The `for` of READ_LIST, with the rounds left.
  unfoldable pub read_items : Reader A → ℕ → Reader (List A)
  read_items read_func zero p = some ([], p)
  read_items read_func (suc n) p = do
    (v, r) ← read_func p
    (vs, r') ← read_items read_func n r
    some (v ∷ vs, r')

  unfoldable pub read_list : Reader A → Reader (List A)
  unfolding read_items
  read_list read_func p = do (n, r) ← read_length p; read_items read_func n r

  unfoldable pub write_items : (A → Cursor → Option Cursor) → List A → Cursor → Option Cursor
  write_items write_func [] c = some c
  write_items write_func (v ∷ vs) c = write_func v c >>= write_items write_func vs

  unfoldable pub write_list : (A → Cursor → Option Cursor) → List A → Cursor → Option Cursor
  unfolding write_items
  write_list write_func vs c = write_length (length vs) c >>= write_items write_func vs

-- READ_ENUM_LIST.
unfoldable pub read_enum_list {ℓ} : {A : Type ℓ} → (ℕ → A) → Reader (List A)
unfolding read_list
read_enum_list of_int p = read_list (read_enum of_int) p
