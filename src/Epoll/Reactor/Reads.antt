-- ===== src/Epoll/Reactor/Reads.antt =====
-- onSocketRead and the bytes that are on their way out.
use zbluenet.Base.{
  ℕ, ◌≡◌, refl, ap, ◌∙◌, arith, inl, inr, Bool, true, false, List, none, some, Bool-cases, Outcome,
  done, fault, ◌>>=◌,
}
use zbluenet.Buffer.{Buffer}
use zbluenet.Connection.{Connection, set_error}
use zbluenet.Connection.Reading.{
  Arrival, Handled, Read, ReadEnd, drained, peer_close, read_error, after_handling, after_loop,
  read_loop, on_socket_read,
}

-- What a call that returned was made of.
pub bind-inv {ℓ κ} :
    {A : Type ℓ} {B : Type κ} (o : Outcome A) (f : A → Outcome B) (b : B)
    → (o >>= f) ≡ done b
    → (a : A) × (o ≡ done a) × (f a ≡ done b)
bind-inv (done a) f b e = (a, refl, e)
bind-inv fault f b e = absurd (grind (arith, e))

pub done-inj {ℓ} : {A : Type ℓ} (a b : A) → done a ≡ done b → a ≡ b
done-inj a b e = grind (arith, e)

-- onSocketRead touches neither the wire nor the write buffer.
abbrev pub SameOut : Connection → Connection → Type 0
SameOut c d = (d.wire ≡ c.wire) × (d.write_buffer ≡ c.write_buffer)

module _ (Output : Type 0) (cb : Buffer → Outcome (Handled Output)) (read_max_size : ℕ) where
  handling-SameOut :
      (c d : Connection) (ended : ReadEnd) (h : Handled Output)
      → (after_handling Output ended c h).connection ≡ some d
      → SameOut c d
  unfolding after_handling
  handling-SameOut c d peer_close h e = elim (Bool-cases h.closed) [
    | inl shut ↦ absurd (grind (arith, shut, e))
    | inr left ↦ grind (arith, left, e)
  ]
  handling-SameOut c d drained h e = elim (Bool-cases h.closed) [
    | inl shut ↦ absurd (grind (arith, shut, e))
    | inr left ↦ grind (arith, left, e)
  ]
  handling-SameOut c d (read_error errno) h e = elim (Bool-cases h.closed) [
    | inl shut ↦ absurd (grind (arith, shut, e))
    | inr left ↦ grind (arith, left, e)
  ]

  called-SameOut :
      (c d : Connection) (ended : ReadEnd) (o : Outcome (Handled Output)) (result : Read Output)
      → (o >>= λ h. done (after_handling Output ended c h)) ≡ done result
      → result.connection ≡ some d
      → SameOut c d
  called-SameOut c d ended o result ran e =
      let (h, _, same) = bind-inv o (λ h. done (after_handling Output ended c h)) result ran in
      handling-SameOut c d ended h
        (ap (λ (x : Read Output). x.connection) (done-inj _ result same) ∙ e)

  loop-SameOut :
      (c d : Connection) (ended : ReadEnd) (data_arrive : Bool) (b : Buffer) (result : Read Output)
      → after_loop Output cb c ended data_arrive b ≡ done result
      → result.connection ≡ some d
      → SameOut c d
  unfolding after_loop set_error
  loop-SameOut c d (read_error errno) data_arrive b result ran e = grind (arith, ran, e)
  loop-SameOut c d peer_close true b result ran e =
      called-SameOut c d peer_close (cb b) result ran e
  loop-SameOut c d drained true b result ran e = called-SameOut c d drained (cb b) result ran e
  loop-SameOut c d peer_close false b result ran e =
      handling-SameOut c d peer_close (record { output = none; closed = false; buffer = b })
        (ap (λ (x : Read Output). x.connection) (done-inj _ result ran) ∙ e)
  loop-SameOut c d drained false b result ran e =
      handling-SameOut c d drained (record { output = none; closed = false; buffer = b })
        (ap (λ (x : Read Output). x.connection) (done-inj _ result ran) ∙ e)

  pub read-SameOut :
      (arrivals : List Arrival) (c d : Connection) (result : Read Output)
      → on_socket_read Output cb read_max_size arrivals c ≡ done result
      → result.connection ≡ some d
      → SameOut c d
  unfolding on_socket_read
  read-SameOut arrivals c d result ran e =
      let (l, _, rest) =
        bind-inv (read_loop read_max_size arrivals false c.read_buffer)
          (λ l. after_loop Output cb c l.ended l.data_arrive l.read_buffer) result ran in
      loop-SameOut c d l.ended l.data_arrive l.read_buffer result rest e
