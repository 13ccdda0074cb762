-- ===== src/Epoll/Reactor/Roomy.antt =====
-- Read buffers that have room for what onSocketRead reads.
use zbluenet.Base.{
  ℕ, suc, ◌+◌, ◌*◌, ◌≤◌, ◌≡◌, sym, ◌∙◌, subst, arith, inl, inr, Bool, true, false, List, All,
  Option, none, some, length, Bool-cases, Outcome, done, ◌>>=◌, Ends, ends, Ends-bind,
}
use zbluenet.Buffer.{Buffer}
use zbluenet.Buffer.Invariant.{IsValid, max_size}
use zbluenet.Connection.{Connection, set_error}
use zbluenet.Connection.Reading.{
  Arrival, Handled, Read, ReadEnd, drained, peer_close, read_error, after_handling, after_loop,
  on_socket_read,
}
use zbluenet.Connection.Receiving.{IsFitting, growth, read_loop_lem}

-- The application's callback returns on a valid buffer, and leaves it valid and its storage as
-- long as it was.
abbrev pub IsHandling : (Output : Type 0) → (Buffer → Outcome (Handled Output)) → Type 0
IsHandling Output cb =
    (b : Buffer)
    → IsValid b
    → Ends
        (λ h.
          IsValid h.buffer
          × (h.buffer.expand_size ≡ b.expand_size)
          × (length h.buffer.buffer ≡ length b.buffer))
        (cb b)

module _ (expand_size most : ℕ) where
  -- A read buffer whose storage has room to grow `n` times by `most`.
  pub record IsRoomy (n : ℕ) (b : Buffer) : Type 0 where
    pub valid : IsValid b
    pub expand : b.expand_size ≡ expand_size
    pub room : length b.buffer + n * most ≤ max_size

  pub IsRoomy-fewer : (n : ℕ) (b : Buffer) → IsRoomy (suc n) b → IsRoomy n b
  IsRoomy-fewer n b v = record { valid = v.valid; expand = v.expand; room = grind (arith, v.room) }

  abbrev pub Lasts : ℕ → Option Connection → Type 0
  Lasts n left = (d : Connection) → left ≡ some d → IsRoomy n d.read_buffer

  module _ (Output : Type 0) (cb : Buffer → Outcome (Handled Output)) (read_max_size : ℕ) where
    handling-Lasts :
        (n : ℕ) (c : Connection) (ended : ReadEnd) (h : Handled Output)
        → IsRoomy n h.buffer
        → Lasts n (after_handling Output ended c h).connection
    unfolding after_handling
    handling-Lasts n c peer_close h v d e = elim (Bool-cases h.closed) [
      | inl shut ↦ absurd (grind (arith, shut, e))
      | inr left ↦ subst (IsRoomy n) {x = h.buffer} (grind (arith, left, e)) v
    ]
    handling-Lasts n c drained h v d e = elim (Bool-cases h.closed) [
      | inl shut ↦ absurd (grind (arith, shut, e))
      | inr left ↦ subst (IsRoomy n) {x = h.buffer} (grind (arith, left, e)) v
    ]
    handling-Lasts n c (read_error errno) h v d e = elim (Bool-cases h.closed) [
      | inl shut ↦ absurd (grind (arith, shut, e))
      | inr left ↦ subst (IsRoomy n) {x = h.buffer} (grind (arith, left, e)) v
    ]

    module _ (handles : IsHandling Output cb) where
      called-Lasts :
          (n : ℕ) (c : Connection) (ended : ReadEnd) (b : Buffer)
          → IsRoomy n b
          → Ends
              (λ (x : Read Output). Lasts n x.connection)
              (cb b >>= λ h. done (after_handling Output ended c h))
      called-Lasts n c ended b v = Ends-bind (handles b v.valid) λ h (valid, expand, same). ends (
          handling-Lasts n c ended h (record {
            valid = valid;
            expand = expand ∙ v.expand;
            room = omega (arith, same, v.room);
          }))

      loop-Lasts :
          (n : ℕ) (c : Connection) (ended : ReadEnd) (data_arrive : Bool) (b : Buffer)
          → IsRoomy n b
          → Ends
              (λ (x : Read Output). Lasts n x.connection)
              (after_loop Output cb c ended data_arrive b)
      unfolding after_loop set_error
      loop-Lasts n c (read_error errno) data_arrive b v =
          ends (λ d e. subst (IsRoomy n) {x = b} (grind (arith, e)) v)
      loop-Lasts n c peer_close true b v = called-Lasts n c peer_close b v
      loop-Lasts n c drained true b v = called-Lasts n c drained b v
      loop-Lasts n c peer_close false b v =
          ends
            (handling-Lasts n c peer_close (record { output = none; closed = false; buffer = b }) v)
      loop-Lasts n c drained false b v =
          ends (handling-Lasts n c drained (record { output = none; closed = false; buffer = b }) v)

      pub read-Lasts :
          (n : ℕ) (got : List Arrival) (c : Connection)
          → read_max_size ≤ max_size
          → All IsFitting got
          → growth expand_size got ≤ most
          → IsRoomy (suc n) c.read_buffer
          → Ends
              (λ (x : Read Output). Lasts n x.connection)
              (on_socket_read Output cb read_max_size got c)
      unfolding on_socket_read
      read-Lasts n got c small fit few v =
          let b = c.read_buffer in
          let less : growth b.expand_size got ≤ most =
            subst (λ e. growth e got ≤ most) (sym v.expand) few in
          let room : length b.buffer + most + n * most ≤ max_size = grind (arith, v.room) in
          Ends-bind (read_loop_lem read_max_size got false b v.valid small fit (omega arith)) λ l q.
            loop-Lasts n c l.ended l.data_arrive l.read_buffer (record {
              valid = q.valid;
              expand = q.kept ∙ v.expand;
              room = omega (arith, q.stored);
            })
