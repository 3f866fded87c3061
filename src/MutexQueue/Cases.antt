-- ===== src/MutexQueue/Cases.antt =====
-- What one step of a producer or of a consumer that has the mutex does, by cases.
use latency_lab.Base.{
  ℕ, ◌+◌, ◌<◌, ◌≤◌, ◌≡◌, refl, true, false, inl, inr, ◌⊎◌, List, [], ◌∷◌, ◌++◌, arith, length,
}
use latency_lab.MutexQueue
use latency_lab.MutexQueue.{
  BoundedMutexQueue, new, can_push, can_pop, push, push_with_mutation, pop, pop_front, close,
}
use latency_lab.MutexQueue.Threads.{
  Call, push_call, mutate_call, Monitor, item_of, enter, wake_pop, wake_push, attempt_push,
  attempt_pop,
}

module _ {T : Type 0} where
  -- An entry that notifies has put the item at the end of an open queue with room; any other has
  -- found a closed one, and changed nothing.
  pub enter_cases :
      (q : BoundedMutexQueue T) (call : Call T)
      → ((q.closed ≡ false)
          × (enter q call ≡ (true, record q { queue = q.queue ++ item_of call ∷ [] })))
        ⊎ ((q.closed ≡ true) × (enter q call ≡ (false, q)))
  unfolding push push_with_mutation
  enter_cases q (push_call item) = ground arith
  enter_cases q (mutate_call item mutate) = ground arith

  -- A step of a producer that has the mutex either puts the item of its call into an open queue with
  -- room, and wakes a consumer, or changes neither the queue nor its histories.
  pub attempt_push_cases :
      (call : Call T) (m : Monitor T)
      → ((m.queue.closed ≡ false)
          × (length m.queue.queue < m.queue.capacity)
          × (attempt_push call m
              ≡ wake_pop (record m {
                queue = record (m.queue) { queue = m.queue.queue ++ item_of call ∷ [] };
                pushed = m.pushed ++ item_of call ∷ [];
              })))
        ⊎ (((m.queue.closed ≡ true) × (attempt_push call m ≡ m))
            ⊎ ((m.queue.closed ≡ false)
                × (m.queue.capacity ≤ length m.queue.queue)
                × (attempt_push call m
                    ≡ record m { sleeping_push = m.sleeping_push ++ call ∷ [] })))
  unfolding attempt_push can_push
  attempt_push_cases call m = ground (arith, enter_cases m.queue call)

  pub front_cases : (xs : List T) → (xs ≡ []) ⊎ ((x : T) × (rest : List T) × (xs ≡ x ∷ rest))
  front_cases [] = inl refl
  front_cases (x ∷ xs) = inr (x, xs, refl)

module _ {T : Type 0} (blank : T) where
  -- A step of a consumer that has the mutex takes the front of a queue, and wakes a producer; or it
  -- finds a closed and empty queue, and changes nothing; or it goes to sleep.
  pub attempt_pop_cases :
      (k : ℕ) (m : Monitor T)
      → ((x : T) × (rest : List T) × (m.queue.queue ≡ x ∷ rest)
          × (attempt_pop blank k m
              ≡ wake_push k (record m {
                queue = record (m.queue) { queue = rest };
                popped = m.popped ++ x ∷ [];
              })))
        ⊎ (((m.queue.queue ≡ []) × (m.queue.closed ≡ true) × (attempt_pop blank k m ≡ m))
            ⊎ ((m.queue.queue ≡ [])
                × (m.queue.closed ≡ false)
                × (attempt_pop blank k m ≡ record m { sleeping_pop = m.sleeping_pop + 1 })))
  unfolding attempt_pop can_pop pop MutexQueue.is_empty
  attempt_pop_cases k m = elim (front_cases m.queue.queue) [
    | inl nothing ↦ inr (ground (arith, nothing))
    | inr (x, rest, e) ↦ inl (x, rest, e, ground (arith, e))
  ]
