-- ===== src/MutexQueue.antt =====
-- include/latency_lab/mutex_queue.hpp: the queue, and what each operation does to it while it holds
-- the mutex. `MutexQueue.Threads` adds the waiting and the wake-ups.
pub mod Threads
pub mod Cases
pub mod Fifo
pub mod Wakeups
pub mod Closed
use latency_lab.Base.{
  ℕ, Bool, true, false, ltb, ◌||◌, not, if◌then◌else◌, List, [], ◌∷◌, ◌++◌, length,
}

pub record BoundedMutexQueue (T : Type 0) : Type 0 where
  pub capacity : ℕ
  pub queue : List T
  pub closed : Bool

module _ {T : Type 0} where
  -- `BoundedMutexQueue(capacity)`
  unfoldable pub new : ℕ → BoundedMutexQueue T
  new capacity = record { capacity = capacity; queue = []; closed = false }

  unfoldable pub is_empty : List T → Bool
  is_empty [] = true
  is_empty (x ∷ xs) = false

  -- The predicates of the two waits.
  unfoldable pub can_push : BoundedMutexQueue T → Bool
  can_push q = q.closed || ltb (length q.queue) q.capacity

  unfoldable pub can_pop : BoundedMutexQueue T → Bool
  can_pop q = q.closed || not (is_empty q.queue)

  -- `push_with_mutation` after its wait: whether it notifies, and the queue.
  unfoldable pub push_with_mutation : BoundedMutexQueue T → T → (T → T) → Bool × BoundedMutexQueue T
  push_with_mutation q item mutate =
      if q.closed then (false, q) else (true, record q { queue = q.queue ++ mutate item ∷ [] })

  -- `push` after its wait.
  unfoldable pub push : BoundedMutexQueue T → T → Bool × BoundedMutexQueue T
  push q item = if q.closed then (false, q) else (true, record q { queue = q.queue ++ item ∷ [] })

  abbrev pub pop_front : List T → BoundedMutexQueue T → T → Bool × T × BoundedMutexQueue T
  pop_front [] q item = (false, item, q)
  pop_front (front ∷ rest) q item = (true, front, record q { queue = rest })

  -- `pop(T& item)` after its wait: what it returns, which is also whether it notifies, what `item`
  -- holds afterwards, and the queue.
  unfoldable pub pop : BoundedMutexQueue T → T → Bool × T × BoundedMutexQueue T
  pop q item = pop_front q.queue q item

  -- `close` while it holds the mutex.
  unfoldable pub close : BoundedMutexQueue T → BoundedMutexQueue T
  close q = record q { closed = true }

  unfoldable pub size : BoundedMutexQueue T → ℕ
  size q = length q.queue
