-- ===== src/Buffer/Growth.antt =====
-- reserveWritableBytes: what is readable is kept, and the room asked for is there.
use zbluenet.Base.{
  ℕ, ◌+◌, ◌-◌, ◌*◌, ◌/◌, ◌%◌, ◌≤◌, ◌<◌, ◌≡◌, refl, ap, ◌∙◌, ◌++◌, arith, length, drop, replicate,
  leb, ltb, ◌==◌, ◌&&◌, ◌⊎◌, inl, inr, max, Ends, ends, Ends-bind, Ends-if, length-append,
  length-drop, length-replicate, take-append,
}
use zbluenet.Base.Word.{word, add_size, sub_size, mul_size}
use zbluenet.Buffer.{Buffer, writable_bytes, readable_bytes, grown_size, reserve_writable_bytes}
use native.Mathlib.Nat.{div-add-mod, mod-lt, mod-eq_of_lt, add-mod-mod}
use native.Mathlib.Decide.{dec_lt}
use zbluenet.Buffer.Invariant.{max_size, IsValid, contents, length-contents, load-done, store-done}

-- A step of growth covers what is missing, and is longer by at most one `expand_size`.
step_covers : (d e : ℕ) → 0 < e → (d < e * (d / e + 1)) × (e * (d / e + 1) ≤ d + e)
step_covers d e h =
    (grind (arith, div-add-mod d e, mod-lt d h), grind (arith, div-add-mod d e, mod-lt d h))

-- The factor `size / expand_size_ + 1` wraps only at 2 ^ 64 itself.
mul-mod_le : (e q : ℕ) → q ≤ word → e * (q % word) % word ≡ e * q % word
mul-mod_le e q h = elim (dec_lt q word) [
  | yes p ↦ ap (λ (t : ℕ). e * t % word) (mod-eq_of_lt p)
  | no p ↦ let top : q ≡ word = omega arith in rw top (omega arith)
]

-- The storage after a step of growth by `d`, before the last wrap.
grown-wrapped :
    (cap d e : ℕ)
    → d < word
    → 0 < e
    → add_size cap (mul_size e (add_size (d / e) 1)) ≡ (cap + e * (d / e + 1)) % word
grown-wrapped cap d e small pos =
    ap (λ (t : ℕ). (cap + t) % word) (mul-mod_le e (d / e + 1) (grind (arith, div-add-mod d e)))
    ∙ add-mod-mod cap (e * (d / e + 1)) word

-- The new storage holds what is readable and `size` more, whether or not `size - free_bytes` wraps.
grown_bounds :
    (cap r w size e x : ℕ)
    → r ≤ w
    → w ≤ cap
    → cap + size + e ≤ max_size
    → (r + (cap - w) < size) ⊎ (size + e ≤ r + (cap - w))
    → sub_size size (r + (cap - w)) < x
    → x ≤ sub_size size (r + (cap - w)) + e
    → (w - r + size ≤ (cap + x) % word)
      × ((cap + x) % word ≤ cap + size + e)
      × ((cap + x) % word ≤ w - r + size + e + e)
grown_bounds cap r w size e x h k fits (inl less) lo hi = omega arith
grown_bounds cap r w size e x h k fits (inr more) lo hi = omega arith

module _ (b : Buffer) (size : ℕ) (v : IsValid b) where
  grown_size_covers :
      writable_bytes b < size
      → length b.buffer + size + b.expand_size ≤ max_size
      → Ends
          (λ n.
            (readable_bytes b + size ≤ n)
            × (n ≤ length b.buffer + size + b.expand_size)
            × (n ≤ readable_bytes b + size + b.expand_size + b.expand_size))
          (grown_size b size)
  unfolding grown_size
  grown_size_covers short fits =
      let cap = length b.buffer in
      let r = b.read_index in
      let w = b.write_index in
      let e = b.expand_size in
      let readable : readable_bytes b ≡ w - r = omega arith in
      let free : add_size r (writable_bytes b) ≡ r + (cap - w) = omega arith in
      let d = sub_size size (r + (cap - w)) in
      let covers = step_covers d e v.expands in
      let step = grown-wrapped cap d e (omega arith) v.expands in
      rw (free, readable)
        (Ends-if (leb size (r + (cap - w)) && ltb (sub_size (r + (cap - w)) size) e)
          (λ near. ends (ground arith))
          (λ far.
            let side : (r + (cap - w) < size) ⊎ (size + e ≤ r + (cap - w)) = ground arith in
            Ends-if (e == 0) (λ z. absurd (ground arith))
              (λ z. ends (
                rw step (
                  grown_bounds cap r w size e (e * (d / e + 1)) v.ordered v.inside fits side
                    covers.0 covers.1)))))

  -- What reserveWritableBytes leaves.
  pub record Reserved (r : Buffer) : Type 0 where
    pub valid : IsValid r
    pub room : size ≤ length r.buffer - r.write_index
    pub same : contents r ≡ contents b
    pub kept : r.expand_size ≡ b.expand_size
    pub grown : length r.buffer ≤ length b.buffer + size + b.expand_size
    pub near :
        length r.buffer
        ≤ max
            (length b.buffer)
            (b.write_index - b.read_index + size + b.expand_size + b.expand_size)

  reallocated :
      (n : ℕ)
      → b.write_index - b.read_index + size ≤ n
      → n ≤ length b.buffer + size + b.expand_size
      → n ≤ b.write_index - b.read_index + size + b.expand_size + b.expand_size
      → length b.buffer + size + b.expand_size ≤ max_size
      → Reserved (record b {
        buffer = contents b ++ drop (0 + length (contents b)) (replicate n 0);
        read_index = 0;
        write_index = b.write_index - b.read_index;
      })
  reallocated n lo hi tight fits = record {
    valid = record {
      ordered = omega arith;
      inside = omega (arith, len);
      small = omega (arith, len);
      expands = v.expands;
      expands_small = v.expands_small;
    };
    room = omega (arith, len);
    same =
        take-append (b.write_index - b.read_index - 0) (contents b) _
          (omega (arith, length-contents b v));
    kept = refl;
    grown = omega (arith, len);
    near = omega (arith, len);
  }
    where
      len : length (contents b ++ drop (0 + length (contents b)) (replicate n 0)) ≡ n
      len = omega (
        arith,
        length-append (contents b) (drop (0 + length (contents b)) (replicate n 0)),
        length-drop {A = ℕ} (0 + length (contents b)) (replicate n 0),
        length-replicate {A = ℕ} n 0,
        length-contents b v,
      )

  -- reserveWritableBytes(size) on a valid buffer, if the storage may still grow by `size` and one
  -- `expand_size`: it returns, the buffer stays valid and holds the same bytes, and `size` bytes
  -- can be written. The branch in which `size - free_bytes` wraps is included.
  pub reserve_lem :
      length b.buffer + size + b.expand_size ≤ max_size
      → Ends Reserved (reserve_writable_bytes b size)
  unfolding reserve_writable_bytes
  reserve_lem fits =
      let readable : readable_bytes b ≡ b.write_index - b.read_index = omega arith in
      Ends-if (leb size (writable_bytes b))
        (λ e. ends (record {
          valid = v;
          room = ground arith;
          same = refl;
          kept = refl;
          grown = omega arith;
          near = omega arith;
        }))
        (λ e. Ends-bind (grown_size_covers (ground arith) fits) λ n (lo, hi, tight).
          rw
            (
              readable,
              load-done b.buffer b.read_index (b.write_index - b.read_index) (omega arith),
              store-done (replicate n 0) 0 (contents b)
                  (omega (arith, length-replicate {A = ℕ} n 0, length-contents b v)),
            )
            (ends (reallocated n (omega arith) hi (omega arith) fits)))
