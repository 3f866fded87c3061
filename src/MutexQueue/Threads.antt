-- ===== src/MutexQueue/Threads.antt =====
-- Any number of producers and consumers on the queue of include/latency_lab/mutex_queue.hpp. A step is
-- what a thread does from one lock of the mutex to the next unlock, wait included, or one notification
-- outside the mutex. A thread that waits sleeps until a notification, or for no reason, makes it one
-- that is woken; a woken thread takes the mutex again and looks at its predicate again.
use latency_lab.Base.{
  ℕ, zero, suc, ◌+◌, ◌-◌, ◌==◌, if◌then◌else◌, Bool, List, [], ◌∷◌, ◌++◌, Option, none, some,
}
use latency_lab.MutexQueue.{
  BoundedMutexQueue, new, can_push, can_pop, push, push_with_mutation, pop, close,
}

-- A call of `push(item)` or of `push_with_mutation(item, mutate)`.
pub data Call (T : Type 0) : Type 0 where
  push_call : (item : T) → Call T
  mutate_call : (item : T) (mutate : T → T) → Call T

-- `sleeping_push` waits on `not_full_`, `sleeping_pop` on `not_empty_`. `notify_empty` and
-- `notify_full` count the calls of `close` that still have to make their two notifications.
-- `pushed` and `popped` are the items that entered and that left.
pub record Monitor (T : Type 0) : Type 0 where
  pub queue : BoundedMutexQueue T
  pub sleeping_push : List (Call T)
  pub woken_push : List (Call T)
  pub sleeping_pop : ℕ
  pub woken_pop : ℕ
  pub notify_empty : ℕ
  pub notify_full : ℕ
  pub pushed : List T
  pub popped : List T

-- Which thread comes next; the last two wake a thread for no reason. A number says which of the waiting producers it is, the last one where it
-- is too great: of a call, or the one that `notify_one` wakes.
pub data Event (T : Type 0) : Type 0 where
  call_push : Call T → Event T
  retry_push : ℕ → Event T
  call_pop : ℕ → Event T
  retry_pop : ℕ → Event T
  call_close : Event T
  notify_not_empty : Event T
  notify_not_full : Event T
  spurious_push : ℕ → Event T
  spurious_pop : Event T

-- One of a list, and the others.
abbrev pub pick {ℓ} : {A : Type ℓ} → ℕ → List A → Option (A × List A)
pick k [] = none
pick k (x ∷ []) = some (x, [])
pick zero (x ∷ y ∷ xs) = some (x, y ∷ xs)
pick (suc k) (x ∷ y ∷ xs) = elim (pick k (y ∷ xs)) [
  | none ↦ some (x, [])
  | some (z, rest) ↦ some (z, x ∷ rest)
]

module _ {T : Type 0} where
  -- The item that a call puts into the queue.
  abbrev pub item_of : Call T → T
  item_of (push_call item) = item
  item_of (mutate_call item mutate) = mutate item

  -- A call after its wait.
  abbrev pub enter : BoundedMutexQueue T → Call T → Bool × BoundedMutexQueue T
  enter q (push_call item) = push q item
  enter q (mutate_call item mutate) = push_with_mutation q item mutate

  -- `not_empty_.notify_one()`
  unfoldable pub wake_pop : Monitor T → Monitor T
  wake_pop m =
      if m.sleeping_pop == 0
      then m
      else record m { sleeping_pop = m.sleeping_pop - 1; woken_pop = m.woken_pop + 1 }

  -- `not_full_.notify_one()`
  unfoldable pub wake_push : ℕ → Monitor T → Monitor T
  wake_push k m = elim (pick k m.sleeping_push) [
    | none ↦ m
    | some (call, rest) ↦ record m { sleeping_push = rest; woken_push = m.woken_push ++ call ∷ [] }
  ]

  -- A producer that has the mutex, at its wait.
  unfoldable pub attempt_push : Call T → Monitor T → Monitor T
  attempt_push call m =
      if can_push m.queue
      then (let r = enter m.queue call in
          if r.0
          then wake_pop (record m { queue = r.1; pushed = m.pushed ++ item_of call ∷ [] })
          else m)
      else record m { sleeping_push = m.sleeping_push ++ call ∷ [] }

  -- A woken producer takes the mutex again.
  unfoldable pub retry : ℕ → Monitor T → Monitor T
  retry k m = elim (pick k m.woken_push) [
    | none ↦ m
    | some (call, rest) ↦ attempt_push call (record m { woken_push = rest })
  ]

  -- `close` under the mutex, and its two calls of `notify_all`.
  unfoldable pub start_close : Monitor T → Monitor T
  start_close m = record m { queue = close m.queue; notify_empty = m.notify_empty + 1 }

  unfoldable pub wake_all_pop : Monitor T → Monitor T
  wake_all_pop m = if m.notify_empty == 0 then m else record m {
    notify_empty = m.notify_empty - 1;
    notify_full = m.notify_full + 1;
    sleeping_pop = 0;
    woken_pop = m.woken_pop + m.sleeping_pop;
  }

  unfoldable pub wake_all_push : Monitor T → Monitor T
  wake_all_push m = if m.notify_full == 0 then m else record m {
    notify_full = m.notify_full - 1;
    sleeping_push = [];
    woken_push = m.woken_push ++ m.sleeping_push;
  }

  -- No thread has called yet.
  unfoldable pub initial : BoundedMutexQueue T → Monitor T
  initial q = record {
    queue = q;
    sleeping_push = [];
    woken_push = [];
    sleeping_pop = 0;
    woken_pop = 0;
    notify_empty = 0;
    notify_full = 0;
    pushed = [];
    popped = [];
  }

-- `blank` is what the caller's `item` holds before `pop`.
module _ {T : Type 0} (blank : T) where
  -- A consumer that has the mutex, at its wait.
  unfoldable pub attempt_pop : ℕ → Monitor T → Monitor T
  attempt_pop k m =
      if can_pop m.queue
      then (let r = pop m.queue blank in
          if r.0 then wake_push k (record m { queue = r.2; popped = m.popped ++ r.1 ∷ [] }) else m)
      else record m { sleeping_pop = m.sleeping_pop + 1 }

  unfoldable pub step : Monitor T → Event T → Monitor T
  step m (call_push call) = attempt_push call m
  step m (retry_push k) = retry k m
  step m (call_pop k) = attempt_pop k m
  step m (retry_pop k) =
      if m.woken_pop == 0 then m else attempt_pop k (record m { woken_pop = m.woken_pop - 1 })
  step m call_close = start_close m
  step m notify_not_empty = wake_all_pop m
  step m notify_not_full = wake_all_push m
  step m (spurious_push k) = wake_push k m
  step m spurious_pop = wake_pop m

  unfoldable pub run : Monitor T → List (Event T) → Monitor T
  run m [] = m
  run m (e ∷ es) = run (step m e) es

  -- The threads after a schedule, on a queue that was new.
  abbrev pub after : ℕ → List (Event T) → Monitor T
  after capacity es = run (initial (new capacity)) es
