-- ===== src/Buffer/Integers/Laws.antt =====
-- What the integer operations do to the bytes that a buffer holds.
use zbluenet.Base.{
  ℕ, ◌+◌, ◌-◌, ◌^◌, ◌≤◌, ◌<◌, ◌≡◌, refl, sym, ap, ◌∙◌, Bool, false, List, [], ◌∷◌, ◌++◌, Option,
  none, some, arith, length, take, drop, ltb, if◌then◌else◌, Bool-cases, inl, inr, Outcome, done,
  fault, Ends, ends, Ends-bind, Ends-map, length-append, take-append, drop-append, take-take,
  drop-drop, drop-take,
}
use zbluenet.Base.Word.{word, add_size}
use zbluenet.Buffer.{Buffer, load, readable_bytes, write}
use zbluenet.Buffer.Invariant.{max_size, IsValid, contents, length-contents, load-done}
use zbluenet.Buffer.Growth.{reserve_lem}
use zbluenet.Buffer.Fifo.{Appended, store-write, read_lem}
use zbluenet.Buffer.Integers.{
  value16, value32, value64, bytes16, bytes32, bytes64, peek_with, read_with, write_with, read_int8,
  read_int16, read_int32, read_int64, write_int8, write_int16, write_int32, write_int64,
}
use zbluenet.Buffer.Integers.Values.{value16-bytes16, value32-bytes32, value64-bytes64}

-- The answer of a peek at `n` bytes past `offset` in the bytes `q`.
abbrev pub peeked : ℕ → (List ℕ → ℕ) → List ℕ → ℕ → Option ℕ
peeked n value q offset =
    if ltb (length q) (offset + n) then none else some (value (take n (drop offset q)))

module _ (n : ℕ) (value : List ℕ → ℕ) (b : Buffer) (v : IsValid b) where
  pub peek_with_lem :
      (offset : ℕ)
      → offset + n < word
      → peek_with n value b offset ≡ done (peeked n value (contents b) offset)
  unfolding peek_with
  peek_with_lem offset small =
      let readable : readable_bytes b ≡ length (contents b) = omega (arith, length-contents b v) in
      let sum : add_size offset n ≡ offset + n = omega arith in
      rw (readable, sum)
        (elim (Bool-cases (ltb (length (contents b)) (offset + n))) [
          | inl e ↦ rw e
          | inr e ↦
              let fits : b.read_index + offset + n ≤ length b.buffer =
                ground (arith, length-contents b v, v.inside, v.ordered) in
              let inner : n ≤ b.write_index - b.read_index - offset =
                ground (arith, length-contents b v) in
              let here : add_size b.read_index offset ≡ b.read_index + offset =
                omega (arith, fits, v.small) in
              rw (
                e,
                here,
                load-done b.buffer (b.read_index + offset) n fits,
                drop-take offset (b.write_index - b.read_index) (drop b.read_index b.buffer),
                take-take n (b.write_index - b.read_index - offset)
                    (drop offset (drop b.read_index b.buffer)) inner,
                drop-drop offset b.read_index b.buffer,
              )
        ])

  -- A peek at `n` bytes, of which the buffer has as many to read, whose `offset + n` wraps passes
  -- its guard. It reads outside the storage; or, if the read index and the offset reach the word
  -- size too, it succeeds with bytes that begin before the read index.
  pub peek_with-wraps :
      (offset : ℕ)
      → offset < word
      → word ≤ offset + n
      → n ≤ length (contents b)
      → (b.read_index + offset < word → peek_with n value b offset ≡ fault)
        × (word ≤ b.read_index + offset
            → (at : ℕ) × (at + word ≡ b.read_index + offset)
              × (at < b.read_index)
              × (peek_with n value b offset ≡ done (some (value (take n (drop at b.buffer))))))
  unfolding peek_with load
  peek_with-wraps offset small wraps held = (
    λ below. ground (arith, length-contents b v, v.small, v.inside),
    λ above.
        let at = b.read_index + offset - word in
        let here : add_size b.read_index offset ≡ at =
          omega (arith, v.small, v.inside, v.ordered) in
        (
          at,
          omega arith,
          omega arith,
          rw here (ground (arith, length-contents b v, v.small, v.inside, v.ordered)),
        ),
  )

  -- A read of fewer than `n` bytes fails and changes nothing.
  pub read_with-short : n < word → length (contents b) < n → read_with n value b ≡ done (none, b)
  unfolding read_with
  read_with-short small h = rw (peek_with_lem 0 (omega (arith, small))) (ground arith)

  -- What a read leaves: the value of the first bytes is returned, and they are removed.
  pub record Parsed (bytes rest : List ℕ) (out : Option ℕ × Buffer) : Type 0 where
    pub found : out.0 ≡ some (value bytes)
    pub valid : IsValid out.1
    pub left : contents out.1 ≡ rest

  pub read_with_lem :
      (bytes rest : List ℕ)
      → n < word
      → length bytes ≡ n
      → contents b ≡ bytes ++ rest
      → Ends (Parsed bytes rest) (read_with n value b)
  unfolding read_with
  read_with_lem bytes rest small len e =
      let (valid, left, _, _) = read_lem b n v in
      let enough : ltb (length (contents b)) (0 + n) ≡ false =
        ground (arith, length-append bytes rest, ap length e) in
      rw (peek_with_lem 0 (omega (arith, small)), enough)
        (ends (record {
          found =
              ap (λ q. some (value (take n q))) e
              ∙ ap (λ q. some (value q)) (take-append n bytes rest (sym len));
          valid = valid;
          left = left ∙ ap (drop n) e ∙ drop-append n bytes rest (sym len);
        }))

-- A write appends its bytes.
pub write_with_lem :
    (n : ℕ) (bytes : List ℕ) (b : Buffer)
    → IsValid b
    → length bytes ≡ n
    → length b.buffer + n + b.expand_size ≤ max_size
    → Ends (Appended b bytes) (write_with n bytes b)
unfolding write_with write
write_with_lem n bytes b v len fits = Ends-bind (reserve_lem b n v fits) λ r s.
    Ends-map (store-write r bytes n s.valid (sym len) s.room) λ r' (valid, appended, kept, stored).
      record {
        valid = valid;
        appended = appended ∙ ap (λ q. q ++ bytes) s.same;
        kept = kept ∙ s.kept;
        grown = omega (arith, len, stored, s.grown);
      }

-- The four widths, to state a law once for all of them.
pub data Width : Type 0 where
  int8 int16 int32 int64 : Width

abbrev pub bits : Width → ℕ
bits int8 = 8
bits int16 = 16
bits int32 = 32
bits int64 = 64

abbrev pub size : Width → ℕ
size int8 = 1
size int16 = 2
size int32 = 4
size int64 = 8

-- The bytes of a value at a width, in a byte order (`true` is little endian).
abbrev pub bytes_of : Width → Bool → ℕ → List ℕ
bytes_of int8 e v = v ∷ []
bytes_of int16 e v = bytes16 e v
bytes_of int32 e v = bytes32 e v
bytes_of int64 e v = bytes64 e v

abbrev pub read_int : Width → Bool → Buffer → Outcome (Option ℕ × Buffer)
read_int int8 e b = read_int8 b
read_int int16 e b = read_int16 b e
read_int int32 e b = read_int32 b e
read_int int64 e b = read_int64 b e

abbrev pub write_int : Width → Bool → ℕ → Buffer → Outcome Buffer
write_int int8 e v b = write_int8 b v
write_int int16 e v b = write_int16 b v e
write_int int32 e v b = write_int32 b v e
write_int int64 e v b = write_int64 b v e

pub length-bytes_of : (w : Width) (e : Bool) (v : ℕ) → length (bytes_of w e v) ≡ size w
unfolding bytes16 bytes32 bytes64
length-bytes_of int8 e v = refl
length-bytes_of int16 e v = ground arith
length-bytes_of int32 e v = ground arith
length-bytes_of int64 e v = ground arith

-- writeInt8, 16, 32 and 64, in either byte order: a valid buffer whose storage may still grow
-- stays valid, and the bytes of the value are appended to what it holds.
pub write_int_lem :
    (w : Width) (e : Bool) (v : ℕ) (b : Buffer)
    → IsValid b
    → length b.buffer + size w + b.expand_size ≤ max_size
    → Ends (Appended b (bytes_of w e v)) (write_int w e v b)
unfolding write_int8 write_int16 write_int32 write_int64
write_int_lem int8 e v b h fits = write_with_lem 1 (v ∷ []) b h refl fits
write_int_lem int16 e v b h fits =
    write_with_lem 2 (bytes16 e v) b h (length-bytes_of int16 e v) fits
write_int_lem int32 e v b h fits =
    write_with_lem 4 (bytes32 e v) b h (length-bytes_of int32 e v) fits
write_int_lem int64 e v b h fits =
    write_with_lem 8 (bytes64 e v) b h (length-bytes_of int64 e v) fits

-- What a read leaves: the value, and the rest of the bytes.
pub record Got (v : ℕ) (rest : List ℕ) (out : Option ℕ × Buffer) : Type 0 where
  pub found : out.0 ≡ some v
  pub valid : IsValid out.1
  pub left : contents out.1 ≡ rest

Parsed→Got :
    {n : ℕ} {value : List ℕ → ℕ} {b : Buffer} {h : IsValid b} {bytes rest : List ℕ}
    {o : Outcome (Option ℕ × Buffer)} (v : ℕ)
    → value bytes ≡ v
    → Ends (Parsed n value b h bytes rest) o
    → Ends (Got v rest) o
Parsed→Got v same r =
    Ends-map r λ out s. record { found = s.found ∙ ap some same; valid = s.valid; left = s.left }

-- readInt8, 16, 32 and 64, in either byte order, on a valid buffer that begins with the bytes of
-- a value of that width: the value is returned and its bytes are removed.
pub read_int_lem :
    (w : Width) (e : Bool) (v : ℕ) (rest : List ℕ) (b : Buffer)
    → IsValid b
    → v < 2 ^ bits w
    → contents b ≡ bytes_of w e v ++ rest
    → Ends (Got v rest) (read_int w e b)
unfolding read_int8 read_int16 read_int32 read_int64
read_int_lem int8 e v rest b h small q =
    Parsed→Got v refl (read_with_lem 1 _ b h (v ∷ []) rest (omega arith) refl q)
read_int_lem int16 e v rest b h small q =
    Parsed→Got v (value16-bytes16 e v small) (
      read_with_lem 2 (value16 e) b h (bytes16 e v) rest (omega arith) (length-bytes_of int16 e v)
        q)
read_int_lem int32 e v rest b h small q =
    Parsed→Got v (value32-bytes32 e v small) (
      read_with_lem 4 (value32 e) b h (bytes32 e v) rest (omega arith) (length-bytes_of int32 e v)
        q)
read_int_lem int64 e v rest b h small q =
    Parsed→Got v (value64-bytes64 e v small) (
      read_with_lem 8 (value64 e) b h (bytes64 e v) rest (omega arith) (length-bytes_of int64 e v)
        q)

-- A read of an integer from fewer bytes than it has fails, and leaves the buffer as it is.
pub read_int-short :
    (w : Width) (e : Bool) (b : Buffer)
    → IsValid b
    → length (contents b) < size w
    → read_int w e b ≡ done (none, b)
unfolding read_int8 read_int16 read_int32 read_int64
read_int-short int8 e b h less = read_with-short 1 _ b h (omega arith) less
read_int-short int16 e b h less = read_with-short 2 _ b h (omega arith) less
read_int-short int32 e b h less = read_with-short 4 _ b h (omega arith) less
read_int-short int64 e b h less = read_with-short 8 _ b h (omega arith) less
