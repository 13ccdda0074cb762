-- ===== src/Queue/Batches.antt =====
-- A receiver that stops after `limit` items, as TcpService::onClientNetCommandQueueRead
-- (zbluenet/zbluenet/src/zbluenet/server/tcp_service.cc) does after 100, though it has emptied
-- the pipe before.
use zbluenet.Base.{
  ℕ, zero, suc, ◌+◌, ◌<◌, ◌≤◌, ◌≡◌, refl, subst, ap, arith, Bool, false, inr, List, [], ◌∷◌, ◌++◌,
  some, replicate, ltb, lt→ltb, le→ltb-false,
}
use zbluenet.Queue
use zbluenet.Queue.{Queue, push, pop_if_not_empty, full_no_lock}
use zbluenet.Queue.Messages.{
  Messages, Receiver, idle, draining, popping, start, push_item, Works, write_pipe, wake, read_pipe,
  pipe_read, pipe_write, drained, pop_item, finish, Reach, started, called, worked,
}

module _ {ℓ} {A : Type ℓ} (capacity : ℕ) (roomy : 0 < capacity) (limit : ℕ) (x : A) where
  abbrev up_to : ℕ → Bool
  up_to n = ltb n limit

  -- A state of the queue without bound, in which `left` equal items are in the queue.
  abbrev state : Receiver → ℕ → ℕ → ℕ → List A → List A → Messages A
  state receiver pipe pushing left pushed received = record {
    queue = record { queue = replicate left x; max_size = 0; is_bounded = false };
    pipe = pipe;
    pushing = pushing;
    receiver = receiver;
    pushed = pushed;
    received = received;
  }

  abbrev Reached : Messages A → Type ℓ
  Reached = Reach 0 capacity up_to

  replicate_last : (n : ℕ) → replicate n x ++ x ∷ [] ≡ replicate (suc n) x
  replicate_last zero = refl
  replicate_last (suc n) = ap (◌∷◌ x) (replicate_last n)

  pushes : (n : ℕ) → (pushed : List A) × Reached (state idle 0 n n pushed [])
  unfolding start Queue.new push full_no_lock
  pushes zero = ([], started)
  pushes (suc n) =
      let (pushed, r) = pushes n in
      let s = state idle 0 n n pushed [] in
      let items = λ (l : List A). record (s.queue) { queue = l } in
      let went : push x s.queue ≡ some (items (replicate (suc n) x)) =
        ap (λ l. some (items l)) (replicate_last n) in
      (
        _,
        subst (λ k. Reached (state idle 0 k (suc n) (pushed ++ x ∷ []) [])) (omega arith)
            (called r (push_item x went)),
      )

  writes :
      (n pipe left : ℕ) (pushed : List A)
      → Reached (state idle pipe n left pushed [])
      → 0 < n + pipe
      → (p : ℕ) × (0 < p) × Reached (state idle p 0 left pushed [])
  writes zero pipe left pushed r h = (pipe, omega arith, r)
  writes (suc n) pipe left pushed r h =
      writes n (pipe_write capacity pipe) left pushed
        (subst (λ k. Reached (state idle (pipe_write capacity pipe) k left pushed [])) (omega arith)
          (worked r (write_pipe (omega arith))))
        (omega arith)

  reads :
      (n pipe left : ℕ) (pushed : List A)
      → pipe ≤ n
      → Reached (state draining pipe 0 left pushed [])
      → Reached (state draining 0 0 left pushed [])
  reads n zero left pushed h r = r
  reads (suc n) (suc pipe) left pushed h r =
      reads n (pipe_read (suc pipe)) left pushed (omega arith)
        (worked r (read_pipe refl (omega arith)))
  reads zero (suc pipe) left pushed h r = absurd (omega arith)

  pops :
      (n i : ℕ) (pushed received : List A)
      → i + n ≡ limit
      → Reached (state (popping i) 0 0 (suc n) pushed received)
      → (got : List A) × Reached (state (popping limit) 0 0 1 pushed got)
  unfolding pop_if_not_empty
  pops zero i pushed received h r =
      (received, subst (λ k. Reached (state (popping k) 0 0 1 pushed received)) (omega arith) r)
  pops (suc n) i pushed received h r =
      pops n (suc i) pushed (received ++ x ∷ []) (omega arith)
        (worked r (pop_item i refl (lt→ltb i limit (omega arith)) refl))

  -- Nothing is left to do for the threads.
  stuck :
      (pushed received : List A)
      → (t : Messages A) → Works capacity up_to (state idle 0 0 1 pushed received) t
      → ⊥
  stuck pushed received t (write_pipe p) = absurd (omega arith)
  stuck pushed received t (wake w p) = absurd (omega arith)
  stuck pushed received t (read_pipe w p) = absurd (omega arith)
  stuck pushed received t (drained w p) = absurd (grind arith)
  stuck pushed received t (pop_item n w m e) = absurd (grind arith)
  stuck pushed received t (finish n w e) = absurd (grind arith)

  -- A receiver that stops after `limit` items can come to wait with an item left in the queue,
  -- the pipe empty and no thread with a step to make, so that the item waits for another push.
  pub limited_waits :
      (s : Messages A) × Reach 0 capacity (λ n. ltb n limit) s
      × (s.receiver ≡ idle)
      × (s.queue.queue ≡ x ∷ [])
      × ((t : Messages A) → Works capacity (λ n. ltb n limit) s t → ⊥)
  limited_waits =
      let (pushed, r) = pushes (suc limit) in
      let (pipe, h, w) = writes (suc limit) 0 (suc limit) pushed r (omega arith) in
      let read =
        reads pipe (pipe_read pipe) (suc limit) pushed (omega arith) (worked w (wake refl h)) in
      let (got, popped) = pops limit 0 pushed [] (omega arith) (worked read (drained refl refl)) in
      let no_more = le→ltb-false limit limit (omega arith) in
      (_, worked popped (finish limit refl (inr no_more)), refl, refl, stuck pushed got)
