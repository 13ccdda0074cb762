-- ===== src/Buffer/Fifo.antt =====
-- writeBytes, readBytes, read and write against a queue of bytes.
use zbluenet.Base.{
  ℕ, ◌+◌, ◌-◌, ◌≤◌, min, ◌≡◌, refl, sym, ap, ◌∙◌, List, ◌++◌, arith, length, take, drop, ◌==◌,
  Bool-cases, inl, inr, done, ◌>>=◌, Ends, ends, Ends-bind, Ends-map, length-append, length-take,
  length-drop, take-append, drop-append, append_assoc, take-add, take-length, drop-length,
  drop-drop, drop-take, take-take,
}
use zbluenet.Base.Word.{add_size, sub_size}
use native.Mathlib.Decide.{dec_lt}
use zbluenet.Buffer.{
  Buffer, store, clear, clear_if_empty, readable_bytes, read, read_bytes, write, write_bytes,
}
use zbluenet.Buffer.Invariant.{max_size, IsValid, contents, length-contents, load-done, store-done}
use zbluenet.Buffer.Growth.{reserve_lem}

-- The buffer with `src` put at `writeBegin()` and counted as written.
abbrev pub written : Buffer → List ℕ → Buffer
written b src = record b {
  buffer = take b.write_index b.buffer ++ (src ++ drop (b.write_index + length src) b.buffer);
  write_index = b.write_index + length src;
}

-- The buffer with `k` bytes read.
abbrev pub advanced : Buffer → ℕ → Buffer
advanced b k = record b { read_index = b.read_index + k }

module _ (b : Buffer) (v : IsValid b) where
  -- The storage up to the write index.
  readable_prefix : take b.write_index b.buffer ≡ take b.read_index b.buffer ++ contents b
  readable_prefix =
      ap (λ k. take k b.buffer) {y = b.read_index + (b.write_index - b.read_index)}
        (omega (arith, v.ordered))
      ∙ take-add b.read_index (b.write_index - b.read_index) b.buffer

  module _ (src : List ℕ) (room : b.write_index + length src ≤ length b.buffer) where
    length-written : length (written b src).buffer ≡ length b.buffer
    length-written =
        let rest = drop (b.write_index + length src) b.buffer in
        omega (
          arith,
          v.inside,
          room,
          length-append (take b.write_index b.buffer) (src ++ rest),
          length-append src rest,
          length-take b.write_index b.buffer,
          length-drop (b.write_index + length src) b.buffer,
        )

    pub written-IsValid : IsValid (written b src)
    written-IsValid = record {
      ordered = omega (arith, v.ordered);
      inside = omega (arith, room, length-written);
      small = omega (arith, v.small, length-written);
      expands = v.expands;
      expands_small = v.expands_small;
    }

    pub contents-written : contents (written b src) ≡ contents b ++ src
    contents-written =
        let before = take b.read_index b.buffer in
        let rest = drop (b.write_index + length src) b.buffer in
        rw
          (
            readable_prefix,
            append_assoc before (contents b) (src ++ rest),
            drop-append b.read_index before (contents b ++ (src ++ rest))
                (omega (arith, v.ordered, v.inside, length-take b.read_index b.buffer)),
            ← append_assoc (contents b) src rest,
          )
          (take-append (b.write_index + length src - b.read_index) (contents b ++ src) rest
            (omega (arith, v.ordered, length-append (contents b) src, length-contents b v)))

  module _ (k : ℕ) (short : k ≤ b.write_index - b.read_index) where
    pub contents-advanced : contents (advanced b k) ≡ drop k (contents b)
    contents-advanced =
        ap (λ n. take n (drop (b.read_index + k) b.buffer)) {y = b.write_index - b.read_index - k}
          (omega arith)
        ∙ ap (take (b.write_index - b.read_index - k)) (sym (drop-drop k b.read_index b.buffer))
        ∙ sym (drop-take k (b.write_index - b.read_index) (drop b.read_index b.buffer))

    -- What is left of reading `k` bytes.
    pub record Advanced (r : Buffer) : Type 0 where
      pub valid : IsValid r
      pub left : contents r ≡ drop k (contents b)
      pub stored : r.buffer ≡ b.buffer
      pub kept : r.expand_size ≡ b.expand_size

    advanced_lem : Advanced (clear_if_empty (advanced b k))
    unfolding clear_if_empty clear
    advanced_lem = elim (Bool-cases (b.read_index + k == b.write_index)) [
      | inl e ↦ rw e (record {
        valid = record {
          ordered = omega arith;
          inside = omega arith;
          small = v.small;
          expands = v.expands;
          expands_small = v.expands_small;
        };
        left = sym (drop-length k (contents b) (ground (arith, length-contents b v)));
        stored = refl;
        kept = refl;
      })
      | inr e ↦ rw e (record {
        valid = record {
          ordered = omega (arith, v.ordered, short);
          inside = v.inside;
          small = v.small;
          expands = v.expands;
          expands_small = v.expands_small;
        };
        left = contents-advanced;
        stored = refl;
        kept = refl;
      })
    ]

-- What writeBytes leaves.
pub record Appended (b : Buffer) (src : List ℕ) (r : Buffer) : Type 0 where
  pub valid : IsValid r
  pub appended : contents r ≡ contents b ++ src
  pub kept : r.expand_size ≡ b.expand_size
  pub grown : length r.buffer ≤ length b.buffer + length src + b.expand_size

-- What readBytes returns and leaves.
pub record Taken (b : Buffer) (count : ℕ) (out : List ℕ × Buffer) : Type 0 where
  pub valid : IsValid out.1
  pub taken : out.0 ≡ take count (contents b)
  pub left : contents out.1 ≡ drop count (contents b)
  pub stored : out.1.buffer ≡ b.buffer
  pub kept : out.1.expand_size ≡ b.expand_size

take-min : (n : ℕ) (xs : List ℕ) → take (min n (length xs)) xs ≡ take n xs
take-min n xs = elim (dec_lt n (length xs)) [
  | yes p ↦ ap (λ k. take k xs) (omega arith)
  | no p ↦
      ap (λ k. take k xs) {y = length xs} (omega arith)
      ∙ take-length (length xs) xs (omega arith)
      ∙ sym (take-length n xs (omega arith))
]

drop-min : (n : ℕ) (xs : List ℕ) → drop (min n (length xs)) xs ≡ drop n xs
drop-min n xs = elim (dec_lt n (length xs)) [
  | yes p ↦ ap (λ k. drop k xs) (omega arith)
  | no p ↦
      ap (λ k. drop k xs) {y = length xs} (omega arith)
      ∙ drop-length (length xs) xs (omega arith)
      ∙ sym (drop-length n xs (omega arith))
]

-- Storing `src` at the write index of a buffer with room, and counting it as written.
pub store-written :
    (b : Buffer) (src : List ℕ)
    → IsValid b
    → length src ≤ length b.buffer - b.write_index
    → Ends
        (λ r.
          IsValid r
          × (contents r ≡ contents b ++ src)
          × (r.expand_size ≡ b.expand_size)
          × (length r.buffer ≡ length b.buffer))
        (store b.buffer b.write_index src >>= λ bytes.
          done (record b { buffer = bytes; write_index = add_size b.write_index (length src) }))
store-written b src v room =
    let fits : b.write_index + length src ≤ length b.buffer = omega (arith, v.inside) in
    let sum : add_size b.write_index (length src) ≡ b.write_index + length src =
      omega (arith, v.small) in
    rw (store-done b.buffer b.write_index src fits, sum)
      (ends (
        written-IsValid b v src fits,
        contents-written b v src fits,
        refl,
        length-written b v src fits,
      ))

-- The same where the caller counts the bytes by `write`.
pub store-write :
    (b : Buffer) (src : List ℕ) (n : ℕ)
    → IsValid b
    → n ≡ length src
    → n ≤ length b.buffer - b.write_index
    → Ends
        (λ r.
          IsValid r
          × (contents r ≡ contents b ++ src)
          × (r.expand_size ≡ b.expand_size)
          × (length r.buffer ≡ length b.buffer))
        (store b.buffer b.write_index src >>= λ bytes. done (write (record b { buffer = bytes }) n))
unfolding write
store-write b src n v len room =
    let fits : b.write_index + length src ≤ length b.buffer = omega (arith, v.inside) in
    let stored = (written b src).buffer in
    let index : add_size b.write_index (min n (sub_size (length stored) b.write_index))
        ≡ b.write_index + length src =
      omega (arith, v.small, v.inside, length-written b v src fits) in
    rw (store-done b.buffer b.write_index src fits, index)
      (ends (
        written-IsValid b v src fits,
        contents-written b v src fits,
        refl,
        length-written b v src fits,
      ))

-- writeBytes on a valid buffer whose storage may still grow appends exactly the bytes given.
pub write_bytes_lem :
    (b : Buffer) (src : List ℕ)
    → IsValid b
    → length b.buffer + length src + b.expand_size ≤ max_size
    → Ends (Appended b src) (write_bytes b src)
unfolding write_bytes
write_bytes_lem b src v fits = Ends-bind (reserve_lem b (length src) v fits) λ r s.
    Ends-map (store-written r src s.valid s.room) λ r' (valid, appended, kept, len). record {
      valid = valid;
      appended = appended ∙ ap (λ q. q ++ src) s.same;
      kept = kept ∙ s.kept;
      grown = omega (arith, len, s.grown);
    }

-- readBytes returns the first `count` bytes, or all of them if there are fewer, and removes them.
pub read_bytes_lem :
    (b : Buffer) (count : ℕ) → IsValid b → Ends (Taken b count) (read_bytes b count)
unfolding read_bytes
read_bytes_lem b count v =
    let n = min count (length (contents b)) in
    let readable : readable_bytes b ≡ length (contents b) = omega (arith, length-contents b v) in
    let short : n ≤ b.write_index - b.read_index = omega (arith, length-contents b v) in
    let sum : add_size b.read_index n ≡ b.read_index + n = omega arith in
    let s = advanced_lem b v n short in
    rw (readable, load-done b.buffer b.read_index n (omega arith), sum)
      (ends (record {
        valid = s.valid;
        taken =
            sym (take-take n (b.write_index - b.read_index) (drop b.read_index b.buffer) short)
            ∙ take-min count (contents b);
        left = s.left ∙ drop-min count (contents b);
        stored = s.stored;
        kept = s.kept;
      }))

-- read(size) removes the first `size` bytes, or all of them if there are fewer.
pub read_lem :
    (b : Buffer) (size : ℕ)
    → IsValid b
    → IsValid (read b size)
      × (contents (read b size) ≡ drop size (contents b))
      × ((read b size).buffer ≡ b.buffer)
      × ((read b size).expand_size ≡ b.expand_size)
unfolding read
read_lem b size v =
    let n = min size (length (contents b)) in
    let readable : readable_bytes b ≡ length (contents b) = omega (arith, length-contents b v) in
    let short : n ≤ b.write_index - b.read_index = omega (arith, length-contents b v) in
    let sum : add_size b.read_index n ≡ b.read_index + n = omega arith in
    let s = advanced_lem b v n short in
    rw (readable, sum) (s.valid, s.left ∙ drop-min size (contents b), s.stored, s.kept)
