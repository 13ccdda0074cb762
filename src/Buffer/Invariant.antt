-- ===== src/Buffer/Invariant.antt =====
-- What holds of every DynamicBuffer, the bytes that it holds, and growth.
use zbluenet.Base.{
  ℕ, ◌+◌, ◌-◌, ◌^◌, ◌≤◌, ◌<◌, ◌≡◌, List, ◌++◌, arith, length, take, drop, done, length-take,
  length-drop, length-replicate,
}
use zbluenet.Buffer.{Buffer, new, load, store}

-- `max_size` bounds the storage, as `std::vector::max_size` does.
abbrev pub max_size : ℕ
max_size = 2 ^ 63

pub record IsValid (b : Buffer) : Type 0 where
  pub ordered : b.read_index ≤ b.write_index
  pub inside : b.write_index ≤ length b.buffer
  pub small : length b.buffer ≤ max_size
  pub expands : 0 < b.expand_size
  pub expands_small : b.expand_size ≤ max_size

abbrev pub contents : Buffer → List ℕ
contents b = take (b.write_index - b.read_index) (drop b.read_index b.buffer)

pub length-contents : (b : Buffer) → IsValid b → length (contents b) ≡ b.write_index - b.read_index
length-contents b v = omega (
  arith,
  length-take (b.write_index - b.read_index) (drop b.read_index b.buffer),
  length-drop b.read_index b.buffer,
)

pub new-IsValid :
    (init_size expand_size : ℕ)
    → init_size ≤ max_size
    → 0 < expand_size
    → expand_size ≤ max_size
    → IsValid (new init_size expand_size)
unfolding new
new-IsValid n e small pos fits = omega (arith, length-replicate {A = ℕ} n 0)

pub load-done :
    (bytes : List ℕ) (i n : ℕ)
    → i + n ≤ length bytes
    → load bytes i n ≡ done (take n (drop i bytes))
unfolding load
load-done bytes i n h = ground arith

pub store-done :
    (bytes : List ℕ) (i : ℕ) (src : List ℕ)
    → i + length src ≤ length bytes
    → store bytes i src ≡ done (take i bytes ++ (src ++ drop (i + length src) bytes))
unfolding store
store-done bytes i src h = ground arith
