-- ===== src/Queue/Tests.antt =====
-- Queues with a few items, and the theorems at them.
use zbluenet.Base.{ℕ, ◌≤◌, ◌≡◌, refl, arith, true, false, ◌⊎◌, [], ◌∷◌, none, some, ltb}
use zbluenet.Queue
use zbluenet.Queue.{
  Queue, push, push_if_not_full, pop, pop_if_not_empty, peek, size, is_empty, full_no_lock,
}
use zbluenet.Queue.Messages.{
  Messages, idle, start, push_item, Works, write_pipe, Reach, started, called, Run, stop, next,
}
use zbluenet.Queue.Order.{IsOrdered, Reach-IsOrdered}
use zbluenet.Queue.Wakeups.{all, work_left, Run-delivers}
use zbluenet.Queue.Batches.{limited_waits}

abbrev two : Queue ℕ
two = record { queue = 5 ∷ 6 ∷ []; max_size = 2; is_bounded = true }

-- A full queue refuses an item, and takes it after a pop.
full_refuses :
    (push_if_not_full 7 two ≡ (false, two))
    × (push 7 two ≡ none)
    × (peek two ≡ some 5)
    × (push_if_not_full 7 (pop_if_not_empty two).1 ≡ (true, record two { queue = 6 ∷ 7 ∷ [] }))
unfolding push_if_not_full push peek pop_if_not_empty full_no_lock
full_refuses = (refl, refl, refl, refl)

empty_waits :
    (pop {A = ℕ} (Queue.new 0) ≡ none) × (is_empty {A = ℕ} (Queue.new 0) ≡ true) × (size two ≡ 2)
unfolding pop is_empty Queue.new size
empty_waits = (refl, refl, refl)

-- One item pushed, its byte not yet written.
abbrev one_pushed : Messages ℕ
one_pushed = record {
  queue = record { queue = 7 ∷ []; max_size = 2; is_bounded = true };
  pipe = 0;
  pushing = 1;
  receiver = idle;
  pushed = 7 ∷ [];
  received = [];
}

one_pushed-Reach : Reach 2 65536 all one_pushed
unfolding start Queue.new push full_no_lock
one_pushed-Reach = called started (push_item 7 refl)

abbrev one_written : Messages ℕ
one_written = record one_pushed { pipe = 1; pushing = 0 }

one_written-Run : Run 65536 all 1 one_pushed one_written
one_written-Run = next (write_pipe (omega arith)) stop

Reach-IsOrdered_example : IsOrdered 2 one_pushed
Reach-IsOrdered_example = Reach-IsOrdered one_pushed-Reach

Run-delivers_example :
    (1 ≤ work_left one_pushed)
    × (((u : Messages ℕ) × Works 65536 all one_written u) ⊎ (one_written.received ≡ 7 ∷ []))
Run-delivers_example = Run-delivers (omega arith) one_pushed-Reach one_written-Run

limited_waits_example :
    (s : Messages ℕ) × Reach 0 65536 (λ n. ltb n 100) s
    × (s.receiver ≡ idle)
    × (s.queue.queue ≡ 7 ∷ [])
    × ((t : Messages ℕ) → Works 65536 (λ n. ltb n 100) s t → ⊥)
limited_waits_example = limited_waits 65536 (omega arith) 100 7
