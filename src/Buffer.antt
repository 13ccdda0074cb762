-- ===== src/Buffer.antt =====
-- DynamicBuffer (zbluenet/zbluenet/src/zbluenet/dynamic_buffer.{h,cc}): a growing byte buffer with
-- a read and a write index. Bytes are numbers below 256, `size_t` wraps at 2 ^ 64. An access
-- outside the storage and a division by zero are faults.
pub mod Invariant
pub mod Growth
pub mod Fifo
pub mod Integers
pub mod Runs
mod Tests
use zbluenet.Base.{
  ℕ, ◌+◌, ◌-◌, ◌*◌, ◌/◌, ◌≤◌, ◌<◌, min, Bool, ◌&&◌, List, ◌++◌, length, take, drop, replicate, leb,
  ltb, ◌==◌, if◌then◌else◌, Outcome, done, fault, ◌>>=◌, ◌≡◌,
}
use zbluenet.Base.Word.{add_size, sub_size, mul_size}

pub record Buffer : Type 0 where
  pub buffer : List ℕ
  pub expand_size : ℕ
  pub read_index : ℕ
  pub write_index : ℕ

-- `::memcpy` out of the storage, and into it.
unfoldable pub load : List ℕ → ℕ → ℕ → Outcome (List ℕ)
load bytes i n = if leb (i + n) (length bytes) then done (take n (drop i bytes)) else fault

unfoldable pub store : List ℕ → ℕ → List ℕ → Outcome (List ℕ)
store bytes i src =
    if leb (i + length src) (length bytes)
    then done (take i bytes ++ (src ++ drop (i + length src) bytes))
    else fault

-- The constructor zeroes the storage.
unfoldable pub new : ℕ → ℕ → Buffer
new init_size expand_size = record {
  buffer = replicate init_size 0;
  expand_size = expand_size;
  read_index = 0;
  write_index = 0;
}

unfoldable pub swap : Buffer × Buffer → Buffer × Buffer
swap (a, b) = (b, a)

abbrev pub capacity : Buffer → ℕ
capacity b = length b.buffer

abbrev pub discardable_bytes : Buffer → ℕ
discardable_bytes b = b.read_index

abbrev pub readable_bytes : Buffer → ℕ
readable_bytes b = sub_size b.write_index b.read_index

abbrev pub writable_bytes : Buffer → ℕ
writable_bytes b = sub_size (length b.buffer) b.write_index

unfoldable pub clear : Buffer → Buffer
clear b = record b { read_index = 0; write_index = 0 }

-- `if (read_index_ == write_index_) clear();`
clear_if_empty : Buffer → Buffer
unfolding clear
clear_if_empty b = if b.read_index == b.write_index then clear b else b

unfoldable pub read : Buffer → ℕ → Buffer
unfolding clear_if_empty
read b size =
    clear_if_empty (record b { read_index = add_size b.read_index (min size (readable_bytes b)) })

unfoldable pub write : Buffer → ℕ → Buffer
write b size = record b { write_index = add_size b.write_index (min size (writable_bytes b)) }

-- The size that `reserveWritableBytes` reallocates to. `size - free_bytes` wraps when
-- `free_bytes` is the larger.
grown_size : Buffer → ℕ → Outcome ℕ
grown_size b size =
    let free_bytes = add_size (discardable_bytes b) (writable_bytes b) in
    if leb size free_bytes && ltb (sub_size free_bytes size) b.expand_size
    then done (add_size (length b.buffer) b.expand_size)
    else if b.expand_size == 0
    then fault
    else done (
        add_size (length b.buffer)
          (mul_size b.expand_size (add_size (sub_size size free_bytes / b.expand_size) 1)))

unfoldable pub reserve_writable_bytes : Buffer → ℕ → Outcome Buffer
unfolding grown_size load store
reserve_writable_bytes b size = if leb size (writable_bytes b) then done b else do
  new_size ← grown_size b size
  let readable = readable_bytes b
  kept ← load b.buffer b.read_index readable
  new_buffer ← store (replicate new_size 0) 0 kept
  done (record b { buffer = new_buffer; read_index = 0; write_index = readable })

-- `readBytes` returns the bytes that it copies out; their number is its result in C++.
unfoldable pub read_bytes : Buffer → ℕ → Outcome (List ℕ × Buffer)
unfolding load clear_if_empty
read_bytes b count = do
  let real_count = min count (readable_bytes b)
  out ← load b.buffer b.read_index real_count
  done (out, clear_if_empty (record b { read_index = add_size b.read_index real_count }))

unfoldable pub write_bytes : Buffer → List ℕ → Outcome Buffer
unfolding reserve_writable_bytes store
write_bytes b src = do
  r ← reserve_writable_bytes b (length src)
  bytes ← store r.buffer r.write_index src
  done (record r { buffer = bytes; write_index = add_size r.write_index (length src) })
