-- ===== src/Queue/Wakeups.antt =====
-- A MessageQueue loses no wake-up: whatever the order of the threads, an item in the queue is
-- received after finitely many of their steps, when the receiver empties the queue.
use zbluenet.Base.{
  ℕ, ◌+◌, ◌*◌, ◌<◌, ◌≤◌, ◌≡◌, refl, sym, ap, ◌∙◌, arith, Bool, true, ◌⊎◌, inl, inr, List, [], ◌∷◌,
  ◌++◌, none, some, length, Bool-cases, ltb, ltb→lt, ltb-false→le, append-nil,
}
use zbluenet.Queue
use zbluenet.Queue.{Queue, push, pop_if_not_empty}
use zbluenet.Queue.Messages.{
  Messages, Receiver, idle, draining, popping, start, Calls, push_item, yield, Works, write_pipe,
  wake, read_pipe, drained, pop_item, finish, Reach, started, called, worked, Run, stop, next,
}
use zbluenet.Queue.Order.{Reach-IsOrdered, pop_if_not_empty_lem}

-- The receiver takes what there is.
abbrev pub all : ℕ → Bool
all _ = true

-- How far the receiver is from waiting again.
unfoldable pub rank : Receiver → ℕ
rank idle = 0
rank draining = 2
rank (popping _) = 1

module _ {ℓ} {A : Type ℓ} where
  -- While the receiver waits and the queue has an item, the pipe has a byte or gets one.
  IsAwake : Messages A → Type ℓ
  IsAwake s = s.receiver ≡ idle → (s.queue.queue ≡ []) ⊎ (0 < s.pipe + s.pushing)

  Calls-IsAwake :
      {capacity : ℕ} {s t : Messages A} → 0 < capacity → IsAwake s → Calls capacity s t → IsAwake t
  unfolding IsAwake
  Calls-IsAwake c v (push_item x e) = λ i. inr (omega arith)
  Calls-IsAwake c v yield = λ i. inr (omega arith)

  Works-IsAwake :
      {capacity : ℕ} {s t : Messages A}
      → 0 < capacity
      → IsAwake s
      → Works capacity all s t
      → IsAwake t
  unfolding IsAwake pop_if_not_empty
  Works-IsAwake c v (write_pipe p) = λ i. inr (omega arith)
  Works-IsAwake c v (wake w p) = λ i. absurd (grind arith)
  Works-IsAwake c v (read_pipe w p) = λ i. absurd (grind arith)
  Works-IsAwake c v (drained w p) = λ i. absurd (grind arith)
  Works-IsAwake c v (pop_item n w m e) = λ i. absurd (grind arith)
  Works-IsAwake {s = s} c v (finish n w e) = λ i. inl (grind arith)

  Reach-IsAwake :
      {max_size capacity : ℕ} {s : Messages A}
      → 0 < capacity
      → Reach max_size capacity all s
      → IsAwake s
  unfolding IsAwake start Queue.new
  Reach-IsAwake c started = λ i. inl refl
  Reach-IsAwake c (called r w) = Calls-IsAwake c (Reach-IsAwake c r) w
  Reach-IsAwake c (worked r w) = Works-IsAwake c (Reach-IsAwake c r) w

  -- What is left to do: every step of the threads makes it less.
  unfoldable pub work_left : Messages A → ℕ
  work_left s = s.pushing * 4 + s.pipe * 3 + rank s.receiver + length s.queue.queue

  Works-less :
      {capacity : ℕ} {s t : Messages A} → Works capacity all s t → work_left t < work_left s
  unfolding work_left rank
  Works-less (write_pipe p) = omega arith
  Works-less {s = s} (wake w p) = omega (arith, ap rank w)
  Works-less {s = s} (read_pipe w p) = omega arith
  Works-less {s = s} (drained w p) = omega (arith, ap rank w)
  Works-less {s = s} (pop_item n w m e) =
      omega (arith, ap rank w, ap length (pop_if_not_empty_lem s.queue _ _ e).0)
  Works-less {s = s} (finish n w e) = omega (arith, ap rank w)

  Works-pushed : {capacity : ℕ} {s t : Messages A} → Works capacity all s t → t.pushed ≡ s.pushed
  Works-pushed (write_pipe _) = refl
  Works-pushed (wake _ _) = refl
  Works-pushed (read_pipe _ _) = refl
  Works-pushed (drained _ _) = refl
  Works-pushed (pop_item _ _ _ _) = refl
  Works-pushed (finish _ _ _) = refl

  Run-le :
      {capacity n : ℕ} {s t : Messages A} → Run capacity all n s t → n + work_left t ≤ work_left s
  Run-le stop = omega arith
  Run-le (next w r) = omega (arith, Works-less w, Run-le r)

  Run-Reach :
      {max_size capacity n : ℕ} {s t : Messages A}
      → Reach max_size capacity all s
      → Run capacity all n s t
      → Reach max_size capacity all t × (t.pushed ≡ s.pushed)
  Run-Reach r stop = (r, refl)
  Run-Reach r (next w u) =
      let (reached, same) = Run-Reach (worked r w) u in (reached, same ∙ Works-pushed w)

  -- What the threads can still do, or what they have done.
  abbrev GoesOn : ℕ → Messages A → Type ℓ
  GoesOn capacity s =
      ((t : Messages A) × Works capacity all s t) ⊎ ((s.receiver ≡ idle) × (s.queue.queue ≡ []))

  List-cases : (xs : List A) → (xs ≡ []) ⊎ ((x : A) × (rest : List A) × (xs ≡ x ∷ rest))
  List-cases [] = inl refl
  List-cases (x ∷ rest) = inr (x, rest, refl)

  queue-cases :
      (q : Queue A)
      → (q.queue ≡ []) × ((pop_if_not_empty q).0 ≡ none)
        ⊎ ((x : A) × (r : Queue A) × (pop_if_not_empty q ≡ (some x, r)))
  unfolding pop_if_not_empty
  queue-cases q = elim (List-cases q.queue) [
    | inl e ↦ inl (e, rw e refl)
    | inr (x, rest, e) ↦ inr (x, record q { queue = rest }, rw e refl)
  ]

  receiver-GoesOn :
      (capacity : ℕ) (s : Messages A) (r : Receiver)
      → s.receiver ≡ r
      → IsAwake s
      → s.pushing ≡ 0
      → GoesOn capacity s
  unfolding IsAwake
  receiver-GoesOn capacity s idle w v p = elim (Bool-cases (ltb 0 s.pipe)) [
    | inl e ↦ inl (_, wake w (omega (arith, ltb→lt 0 s.pipe e)))
    | inr e ↦ elim (v w) [
      | inl empty ↦ inr (w, empty)
      | inr busy ↦ absurd (omega (arith, ltb-false→le 0 s.pipe e))
    ]
  ]
  receiver-GoesOn capacity s draining w v p = elim (Bool-cases (ltb 0 s.pipe)) [
    | inl e ↦ inl (_, read_pipe w (omega (arith, ltb→lt 0 s.pipe e)))
    | inr e ↦ inl (_, drained w (omega (arith, ltb-false→le 0 s.pipe e)))
  ]
  receiver-GoesOn capacity s (popping n) w v p = elim (queue-cases s.queue) [
    | inl (_, none_left) ↦ inl (_, finish n w (inl none_left))
    | inr (x, q, e) ↦ inl (_, pop_item n w refl e)
  ]

  progress : (capacity : ℕ) (s : Messages A) → IsAwake s → GoesOn capacity s
  progress capacity s v = elim (Bool-cases (ltb 0 s.pushing)) [
    | inl e ↦ inl (_, write_pipe (ltb→lt 0 s.pushing e))
    | inr e ↦
        receiver-GoesOn capacity s s.receiver refl v (omega (arith, ltb-false→le 0 s.pushing e))
  ]

  -- Let the pipe hold a byte or more, and let the receiver take items until the queue is empty.
  -- However the threads are interleaved, after the last call their run ends within a number of
  -- steps that the state fixes, and a run that cannot go on has received everything that was
  -- pushed, in its order.
  pub Run-delivers :
      {max_size capacity n : ℕ} {s t : Messages A}
      → 0 < capacity
      → Reach max_size capacity all s
      → Run capacity all n s t
      → (n ≤ work_left s) × (((u : Messages A) × Works capacity all t u) ⊎ (t.received ≡ s.pushed))
  Run-delivers {capacity = capacity} {s = s} {t = t} c reached run =
      let (later, same) = Run-Reach reached run in
      let v = Reach-IsOrdered later in
      let ends_ : (((u : Messages A) × Works capacity all t u) ⊎ (t.received ≡ s.pushed)) =
        elim (progress capacity t (Reach-IsAwake c later)) [
          | inl step ↦ inl step
          | inr (_, empty) ↦ inr (
              sym (append-nil t.received)
              ∙ ap (λ q. t.received ++ q) (sym empty)
              ∙ sym v.order
              ∙ same)
        ] in
      (omega (arith, Run-le run), ends_)
