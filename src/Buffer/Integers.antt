-- ===== src/Buffer/Integers.antt =====
-- The integer operations of DynamicBuffer: peekInt*, readInt* and writeInt* at 8, 16, 32 and 64
-- bits, in both byte orders. The overloads that widen the result have the same value.
pub mod Values
pub mod Laws
use Prim.Native.Nat.{bit_or}
use zbluenet.Base.{
  ℕ, ◌+◌, ◌%◌, Bool, List, [], ◌∷◌, Option, none, some, get_or, ltb, if◌then◌else◌, Outcome, done,
  ◌>>=◌,
}
use zbluenet.Base.Word.{add_size, byte_at, shl}
use zbluenet.Buffer.{Buffer, load, store, readable_bytes, read, write, reserve_writable_bytes}

-- The value of the bytes at `p`, as the code joins them.
unfoldable pub value16 : Bool → List ℕ → ℕ
value16 little_endian p =
    if little_endian
    then bit_or (get_or p 0 0) (shl 32 (get_or p 1 0) 8)
    else bit_or (get_or p 1 0) (shl 32 (get_or p 0 0) 8)

unfoldable pub value32 : Bool → List ℕ → ℕ
value32 little_endian p =
    if little_endian
    then bit_or
        (bit_or (bit_or (get_or p 0 0) (shl 32 (get_or p 1 0) 8)) (shl 32 (get_or p 2 0) 16))
        (shl 32 (get_or p 3 0) 24)
    else bit_or
        (bit_or (bit_or (get_or p 3 0) (shl 32 (get_or p 2 0) 8)) (shl 32 (get_or p 1 0) 16))
        (shl 32 (get_or p 0 0) 24)

-- Eight bytes, the lowest first.
unfoldable pub join64 : ℕ → ℕ → ℕ → ℕ → ℕ → ℕ → ℕ → ℕ → ℕ
join64 a b c d e f g h =
    bit_or
      (bit_or
        (bit_or
          (bit_or (bit_or (bit_or (bit_or a (shl 64 b 8)) (shl 64 c 16)) (shl 64 d 24))
            (shl 64 e 32))
          (shl 64 f 40))
        (shl 64 g 48))
      (shl 64 h 56)

unfoldable pub value64 : Bool → List ℕ → ℕ
unfolding join64
value64 little_endian p =
    let at = λ (i : ℕ). get_or p i 0 in
    if little_endian
    then join64 (at 0) (at 1) (at 2) (at 3) (at 4) (at 5) (at 6) (at 7)
    else join64 (at 7) (at 6) (at 5) (at 4) (at 3) (at 2) (at 1) (at 0)

-- The bytes that a value is written as.
unfoldable pub bytes16 : Bool → ℕ → List ℕ
bytes16 little_endian v =
    if little_endian then v % 256 ∷ byte_at v 8 ∷ [] else byte_at v 8 ∷ v % 256 ∷ []

unfoldable pub bytes32 : Bool → ℕ → List ℕ
bytes32 little_endian v =
    if little_endian
    then v % 256 ∷ byte_at v 8 ∷ byte_at v 16 ∷ byte_at v 24 ∷ []
    else byte_at v 24 ∷ byte_at v 16 ∷ byte_at v 8 ∷ v % 256 ∷ []

unfoldable pub bytes64 : Bool → ℕ → List ℕ
bytes64 little_endian v =
    if little_endian
    then v % 256
      ∷ byte_at v 8
      ∷ byte_at v 16
      ∷ byte_at v 24
      ∷ byte_at v 32
      ∷ byte_at v 40
      ∷ byte_at v 48
      ∷ byte_at v 56
      ∷ []
    else byte_at v 56
      ∷ byte_at v 48
      ∷ byte_at v 40
      ∷ byte_at v 32
      ∷ byte_at v 24
      ∷ byte_at v 16
      ∷ byte_at v 8
      ∷ v % 256
      ∷ []

-- What the peeks share: `n` bytes at `offset` past the read index. `none` is the result `false`.
-- The sum of an address and an offset wraps like that of two sizes.
unfoldable pub peek_with : ℕ → (List ℕ → ℕ) → Buffer → ℕ → Outcome (Option ℕ)
peek_with n value b offset =
    if ltb (readable_bytes b) (add_size offset n)
    then done none
    else do p ← load b.buffer (add_size b.read_index offset) n; done (some (value p))

-- What the reads share: a peek at offset 0, then `read(n)`.
unfoldable pub read_with : ℕ → (List ℕ → ℕ) → Buffer → Outcome (Option ℕ × Buffer)
read_with n value b = do
  found ← peek_with n value b 0
  elim found [ none ↦ done (none, b) | some v ↦ done (some v, read b n) ]

-- What the writes share: room for `n` bytes, the bytes, then `write(n)`.
unfoldable pub write_with : ℕ → List ℕ → Buffer → Outcome Buffer
write_with n bytes b = do
  r ← reserve_writable_bytes b n
  stored ← store r.buffer r.write_index bytes
  done (write (record r { buffer = stored }) n)

unfoldable pub peek_int8 : Buffer → ℕ → Outcome (Option ℕ)
peek_int8 b offset = peek_with 1 (λ p. get_or p 0 0) b offset

unfoldable pub peek_int16 : Buffer → ℕ → Bool → Outcome (Option ℕ)
peek_int16 b offset little_endian = peek_with 2 (value16 little_endian) b offset

unfoldable pub peek_int32 : Buffer → ℕ → Bool → Outcome (Option ℕ)
peek_int32 b offset little_endian = peek_with 4 (value32 little_endian) b offset

unfoldable pub peek_int64 : Buffer → ℕ → Bool → Outcome (Option ℕ)
peek_int64 b offset little_endian = peek_with 8 (value64 little_endian) b offset

unfoldable pub read_int8 : Buffer → Outcome (Option ℕ × Buffer)
read_int8 b = read_with 1 (λ p. get_or p 0 0) b

unfoldable pub read_int16 : Buffer → Bool → Outcome (Option ℕ × Buffer)
read_int16 b little_endian = read_with 2 (value16 little_endian) b

unfoldable pub read_int32 : Buffer → Bool → Outcome (Option ℕ × Buffer)
read_int32 b little_endian = read_with 4 (value32 little_endian) b

unfoldable pub read_int64 : Buffer → Bool → Outcome (Option ℕ × Buffer)
read_int64 b little_endian = read_with 8 (value64 little_endian) b

unfoldable pub write_int8 : Buffer → ℕ → Outcome Buffer
write_int8 b v = write_with 1 (v ∷ []) b

unfoldable pub write_int16 : Buffer → ℕ → Bool → Outcome Buffer
write_int16 b v little_endian = write_with 2 (bytes16 little_endian v) b

unfoldable pub write_int32 : Buffer → ℕ → Bool → Outcome Buffer
write_int32 b v little_endian = write_with 4 (bytes32 little_endian v) b

unfoldable pub write_int64 : Buffer → ℕ → Bool → Outcome Buffer
write_int64 b v little_endian = write_with 8 (bytes64 little_endian v) b
