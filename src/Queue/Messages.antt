-- ===== src/Queue/Messages.antt =====
-- MessageQueue (zbluenet/zbluenet/src/zbluenet/net/message_queue.h) over its ConcurrentQueue and
-- its SelfPipe (net/self_pipe.cc): the threads that push and the one that receives, interleaved
-- in any order. A push puts the item in the queue and then writes a byte to the pipe; between
-- the two the thread is one of `pushing`. The pipe holds `capacity` bytes at most, and a write to
-- a full one is lost. A read takes `amount` bytes, all that there are up to the buffer's 1024.
-- `recv_message_cb_` is called once the pipe is empty, and takes items off the queue while
-- `may_pop`, asked how many it has taken, allows it.
use zbluenet.Base.{
  ℕ, suc, ◌+◌, ◌-◌, ◌<◌, ◌≡◌, Bool, true, false, ◌⊎◌, List, [], ◌∷◌, ◌++◌, none, some, min,
}
use zbluenet.Queue
use zbluenet.Queue.{Queue, push, pop_if_not_empty}

-- Where the receiving thread is: waiting for the pipe, emptying it, or in the callback.
pub data Receiver : Type 0 where
  idle draining : Receiver
  popping : ℕ → Receiver

pub record Messages {ℓ} (A : Type ℓ) : Type ℓ where
  pub queue : Queue A
  pub pipe : ℕ
  pub pushing : ℕ
  pub receiver : Receiver
  -- The items pushed and those received so far, in order.
  pub pushed : List A
  pub received : List A

abbrev pub read_size : ℕ
read_size = 1024

-- A write of one byte, and a read.
abbrev pub pipe_write : ℕ → ℕ → ℕ
pipe_write capacity pipe = min capacity (pipe + 1)

abbrev pub pipe_read : ℕ → ℕ
pipe_read pipe = pipe - read_size

module _ {ℓ} {A : Type ℓ} where
  unfoldable pub start : ℕ → Messages A
  unfolding Queue.new
  start max_size = record {
    queue = Queue.new max_size;
    pipe = 0;
    pushing = 0;
    receiver = idle;
    pushed = [];
    received = [];
  }

  -- What a caller does: it pushes an item, or it calls `yield`.
  pub data Calls (capacity : ℕ) (s : Messages A) : Messages A → Type ℓ where
    push_item :
        {q : Queue A} (x : A)
        → push x s.queue ≡ some q
        → Calls capacity s
            (record s { queue = q; pushing = s.pushing + 1; pushed = s.pushed ++ x ∷ [] })
    yield : Calls capacity s (record s { pipe = pipe_write capacity s.pipe })

  -- What the threads do next by themselves. The first read of pipeReadCallback is part of `wake`.
  pub data Works (capacity : ℕ) (may_pop : ℕ → Bool) (s : Messages A) : Messages A → Type ℓ where
    write_pipe :
        0 < s.pushing
        → Works capacity may_pop s
            (record s { pushing = s.pushing - 1; pipe = pipe_write capacity s.pipe })
    wake :
        s.receiver ≡ idle
        → 0 < s.pipe
        → Works capacity may_pop s (record s { receiver = draining; pipe = pipe_read s.pipe })
    read_pipe :
        s.receiver ≡ draining
        → 0 < s.pipe
        → Works capacity may_pop s (record s { pipe = pipe_read s.pipe })
    drained :
        s.receiver ≡ draining
        → s.pipe ≡ 0
        → Works capacity may_pop s (record s { receiver = popping 0 })
    pop_item :
        {x : A} {q : Queue A} (n : ℕ)
        → s.receiver ≡ popping n
        → may_pop n ≡ true
        → pop_if_not_empty s.queue ≡ (some x, q)
        → Works capacity may_pop s
            (record s { queue = q; receiver = popping (suc n); received = s.received ++ x ∷ [] })
    finish :
        (n : ℕ)
        → s.receiver ≡ popping n
        → ((pop_if_not_empty s.queue).0 ≡ none) ⊎ (may_pop n ≡ false)
        → Works capacity may_pop s (record s { receiver = idle })

  -- The states that a queue gets into.
  pub data Reach (max_size capacity : ℕ) (may_pop : ℕ → Bool) : Messages A → Type ℓ where
    started : Reach max_size capacity may_pop (start max_size)
    called :
        {s t : Messages A}
        → Reach max_size capacity may_pop s
        → Calls capacity s t
        → Reach max_size capacity may_pop t
    worked :
        {s t : Messages A}
        → Reach max_size capacity may_pop s
        → Works capacity may_pop s t
        → Reach max_size capacity may_pop t

  -- A run of `n` steps of the threads, without a call.
  pub data Run (capacity : ℕ) (may_pop : ℕ → Bool) : ℕ → Messages A → Messages A → Type ℓ where
    stop : {s : Messages A} → Run capacity may_pop 0 s s
    next :
        {n : ℕ} {s t u : Messages A}
        → Works capacity may_pop s t
        → Run capacity may_pop n t u
        → Run capacity may_pop (suc n) s u
