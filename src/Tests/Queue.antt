-- ===== src/Tests/Queue.antt =====
-- The mutex queue with one place, two producers and a consumer.
use latency_lab.Base.{ℕ, ◌+◌, ◌≤◌, ◌≡◌, refl, ◌⊎◌, true, false, List, [], ◌∷◌, ◌++◌, length}
use latency_lab.MutexQueue.{can_push, can_pop, push, push_with_mutation, pop, close, new}
use latency_lab.MutexQueue
use latency_lab.MutexQueue.Threads.{
  push_call, mutate_call, Monitor, Event, call_push, retry_push, call_pop, call_close, wake_pop,
  wake_push, attempt_push, retry, start_close, initial, attempt_pop, step, run, after,
}
use latency_lab.MutexQueue.Fifo.{after_fifo}
use latency_lab.MutexQueue.Wakeups.{after_awake, IsQuiet}

-- The second producer finds the queue full, sleeps until the consumer has taken the first item, and
-- puts its own in; the third call sleeps again.
abbrev schedule : List (Event ℕ)
schedule =
    call_push (push_call 5)
    ∷ call_push (mutate_call 6 (λ x. x + 10))
    ∷ call_pop 0
    ∷ retry_push 0
    ∷ call_push (push_call 7)
    ∷ []

schedule_runs :
    let m = after {T = ℕ} 0 1 schedule in
    (m.popped ≡ 5 ∷ [])
    × (m.queue.queue ≡ 16 ∷ [])
    × (m.sleeping_push ≡ push_call 7 ∷ [])
    × (m.woken_push ≡ [])
    × (m.woken_pop ≡ 0)
unfolding run step attempt_push attempt_pop retry wake_pop wake_push initial new can_push can_pop
    push push_with_mutation pop MutexQueue.is_empty
schedule_runs = (refl, refl, refl, refl, refl)

schedule-IsQuiet : IsQuiet {T = ℕ} 0 (after 0 1 schedule)
unfolding run step attempt_push attempt_pop retry wake_pop wake_push initial new can_push can_pop
    push push_with_mutation pop MutexQueue.is_empty
schedule-IsQuiet = (refl, refl, refl, refl)

after_fifo_example :
    ((after {T = ℕ} 0 1 schedule).pushed
      ≡ (after 0 1 schedule).popped ++ (after 0 1 schedule).queue.queue)
    × (length (after {T = ℕ} 0 1 schedule).queue.queue ≤ 1)
after_fifo_example = after_fifo 1 0 schedule

after_awake_example :
    let m = after {T = ℕ} 0 1 schedule in
    ((m.sleeping_pop ≡ 0) ⊎ ((m.queue.closed ≡ false) × (length m.queue.queue ≡ 0)))
    × ((length m.sleeping_push ≡ 0) ⊎ ((m.queue.closed ≡ false) × (length m.queue.queue ≡ 1)))
    × ((◌≡◌ {A = ℕ} 1 0) ⊎ ((m.sleeping_pop ≡ 0) ⊎ (length m.sleeping_push ≡ 0)))
after_awake_example = after_awake 0 1 schedule schedule-IsQuiet

-- The queue of the schedule, closed.
abbrev shut : Monitor ℕ
shut = step 0 (after 0 1 schedule) call_close

shut_closed : shut.queue.closed ≡ true
unfolding step start_close close
shut_closed = refl
