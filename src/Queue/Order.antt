-- ===== src/Queue/Order.antt =====
-- The order and the bound of the items in a MessageQueue.
use zbluenet.Base.{
  ℕ, ◌≤◌, ◌≡◌, refl, sym, ap, ◌∙◌, arith, Bool, false, not, ◌⊎◌, [], ◌∷◌, ◌++◌, some, length, ◌==◌,
  append_assoc, length-append,
}
use zbluenet.Queue
use zbluenet.Queue.{Queue, push, pop_if_not_empty, full_no_lock}
use zbluenet.Queue.Messages.{
  Messages, Receiver, start, Calls, push_item, yield, Works, write_pipe, wake, read_pipe, drained,
  pop_item, finish, Reach, started, called, worked,
}

-- The queue is the one that was made, within its bound, and holds what was pushed and not yet
-- received.
pub record IsOrdered {ℓ} {A : Type ℓ} (max_size : ℕ) (s : Messages A) : Type ℓ where
  pub size : s.queue.max_size ≡ max_size
  pub bounded : s.queue.is_bounded ≡ not (max_size == 0)
  pub room : (max_size ≡ 0) ⊎ (length s.queue.queue ≤ max_size)
  pub order : s.pushed ≡ s.received ++ s.queue.queue

module _ {ℓ} {A : Type ℓ} where
  -- What a push and a pop do that go through.
  pub push_lem :
      (q r : Queue A) (x : A)
      → push x q ≡ some r
      → (r ≡ record q { queue = q.queue ++ x ∷ [] }) × (full_no_lock q ≡ false)
  unfolding push
  push_lem q r x e = grind arith

  pub pop_if_not_empty_lem :
      (q r : Queue A) (x : A)
      → pop_if_not_empty q ≡ (some x, r)
      → (q.queue ≡ x ∷ r.queue) × (r ≡ record q { queue = r.queue })
  unfolding pop_if_not_empty
  pop_if_not_empty_lem q r x e = grind arith

  start-IsOrdered : (max_size : ℕ) → IsOrdered {A = A} max_size (start max_size)
  unfolding start Queue.new
  start-IsOrdered max_size = record {
    size = refl;
    bounded = refl;
    room = ground arith;
    order = refl;
  }

  keep :
      {max_size pipe pushing : ℕ} {receiver : Receiver} {s : Messages A}
      → IsOrdered max_size s
      → IsOrdered max_size (record s { pipe = pipe; pushing = pushing; receiver = receiver })
  keep v = record { size = v.size; bounded = v.bounded; room = v.room; order = v.order }

  Calls-IsOrdered :
      {max_size capacity : ℕ} {s t : Messages A}
      → IsOrdered max_size s
      → Calls capacity s t
      → IsOrdered max_size t
  unfolding full_no_lock
  Calls-IsOrdered {max_size = m} {s = s} v (push_item {q = q} x e) =
      let (same, open_) = push_lem s.queue q x e in
      let longer = ap (λ p. length p.queue) same ∙ length-append s.queue.queue (x ∷ []) in
      record {
        size = ap (λ p. p.max_size) same ∙ v.size;
        bounded = ap (λ p. p.is_bounded) same ∙ v.bounded;
        room = ground (arith, v.bounded, v.size, v.room, open_, longer);
        order =
            ap (λ p. p ++ x ∷ []) v.order
            ∙ append_assoc s.received s.queue.queue (x ∷ [])
            ∙ ap (λ p. s.received ++ p) (ap (λ p. p.queue) (sym same));
      }
  Calls-IsOrdered v yield = keep v

  Works-IsOrdered :
      {max_size capacity : ℕ} {may_pop : ℕ → Bool} {s t : Messages A}
      → IsOrdered max_size s
      → Works capacity may_pop s t
      → IsOrdered max_size t
  Works-IsOrdered {s = s} v (pop_item {x = x} {q = q} n _ _ e) =
      let (front, same) = pop_if_not_empty_lem s.queue q x e in
      record {
        size = ap (λ p. p.max_size) same ∙ v.size;
        bounded = ap (λ p. p.is_bounded) same ∙ v.bounded;
        room = ground (arith, v.room, ap length front);
        order =
            v.order
            ∙ ap (λ p. s.received ++ p) front
            ∙ sym (append_assoc s.received (x ∷ []) q.queue);
      }
  Works-IsOrdered v (write_pipe _) = keep v
  Works-IsOrdered v (wake _ _) = keep v
  Works-IsOrdered v (read_pipe _ _) = keep v
  Works-IsOrdered v (drained _ _) = keep v
  Works-IsOrdered v (finish _ _ _) = keep v

  -- In every order of the threads, what was received is a first part of what was pushed, in its
  -- order, the queue holds the rest, and a bounded queue holds no more than its bound.
  pub Reach-IsOrdered :
      {max_size capacity : ℕ} {may_pop : ℕ → Bool} {s : Messages A}
      → Reach max_size capacity may_pop s
      → IsOrdered max_size s
  Reach-IsOrdered started = start-IsOrdered _
  Reach-IsOrdered (called r c) = Calls-IsOrdered (Reach-IsOrdered r) c
  Reach-IsOrdered (worked r w) = Works-IsOrdered (Reach-IsOrdered r) w
