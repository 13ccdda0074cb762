-- ===== src/Queue.antt =====
-- ConcurrentQueue (zbluenet/zbluenet/src/zbluenet/concurrent_queue.h): what each operation does
-- while it holds the mutex. `push` and `pop` wait for their condition: `none` is a call that
-- waits. The items that a queue of pointers deletes with itself are not modelled.
pub mod Messages
pub mod Order
pub mod Wakeups
pub mod Batches
mod Tests
use zbluenet.Base.{
  ℕ, Bool, true, false, not, List, [], ◌∷◌, ◌++◌, Option, none, some, length, leb, ◌==◌,
  if◌then◌else◌,
}

pub record Queue {ℓ} (A : Type ℓ) : Type ℓ where
  pub queue : List A
  pub max_size : ℕ
  pub is_bounded : Bool

module _ {ℓ} {A : Type ℓ} where
  unfoldable pub new : ℕ → Queue A
  new max_size = record { queue = []; max_size = max_size; is_bounded = not (max_size == 0) }

  unfoldable pub size : Queue A → ℕ
  size q = length q.queue

  unfoldable pub is_empty : Queue A → Bool
  is_empty q = elim q.queue [ [] ↦ true | (_ ∷ _) ↦ false ]

  unfoldable pub full_no_lock : Queue A → Bool
  full_no_lock q = if not q.is_bounded then false else leb q.max_size (length q.queue)

  unfoldable pub push_if_not_full : A → Queue A → Bool × Queue A
  unfolding full_no_lock
  push_if_not_full item q =
      if full_no_lock q then (false, q) else (true, record q { queue = q.queue ++ item ∷ [] })

  unfoldable pub push : A → Queue A → Option (Queue A)
  unfolding full_no_lock
  push item q = if full_no_lock q then none else some (record q { queue = q.queue ++ item ∷ [] })

  unfoldable pub pop_if_not_empty : Queue A → Option A × Queue A
  pop_if_not_empty q = elim q.queue [
    | [] ↦ (none, q)
    | (front ∷ rest) ↦ (some front, record q { queue = rest })
  ]

  unfoldable pub pop : Queue A → Option (A × Queue A)
  pop q = elim q.queue [ [] ↦ none | (front ∷ rest) ↦ some (front, record q { queue = rest }) ]

  unfoldable pub peek : Queue A → Option A
  peek q = elim q.queue [ [] ↦ none | (front ∷ _) ↦ some front ]
