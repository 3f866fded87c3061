-- ===== src/MutexQueue/Fifo.antt =====
-- What goes into the queue comes out in its order, and never more than the capacity stands in it.
use latency_lab.Base.{
  ℕ, ◌-◌, ◌≤◌, ◌≡◌, refl, sym, ◌∙◌, ap, ◌==◌, Bool-cases, inl, inr, List, [], ◌∷◌, ◌++◌, arith,
  length, length-append, Option-cases,
}
use mathlib.Core.List.{append_assoc}
use latency_lab.MutexQueue.{new, close}
use latency_lab.MutexQueue.Threads.{
  Call, Monitor, Event, call_push, retry_push, call_pop, retry_pop, call_close, notify_not_empty,
  notify_not_full, spurious_push, spurious_pop, pick, item_of, wake_pop, wake_push, attempt_push,
  retry, start_close, wake_all_pop, wake_all_push, initial, attempt_pop, step, run, after,
}
use latency_lab.MutexQueue.Cases.{attempt_push_cases, attempt_pop_cases}

module _ {T : Type 0} (capacity : ℕ) (blank : T) where
  pub record IsFifo (m : Monitor T) : Type 0 where
    pub order : m.pushed ≡ m.popped ++ m.queue.queue
    pub bound : length m.queue.queue ≤ m.queue.capacity
    pub same : m.queue.capacity ≡ capacity

  wake_pop-IsFifo : (m : Monitor T) → IsFifo m → IsFifo (wake_pop m)
  unfolding wake_pop
  wake_pop-IsFifo m v = ground (arith, v.order, v.bound, v.same)

  wake_push-IsFifo : (k : ℕ) (m : Monitor T) → IsFifo m → IsFifo (wake_push k m)
  unfolding wake_push
  wake_push-IsFifo k m v = ground (arith, v.order, v.bound, v.same)

  attempt_push-IsFifo : (call : Call T) (m : Monitor T) → IsFifo m → IsFifo (attempt_push call m)
  attempt_push-IsFifo call m v = elim (attempt_push_cases call m) [
    | inl (opened, room, e) ↦ rw e (
        wake_pop-IsFifo _ (record {
          order =
              ap (λ xs. xs ++ item_of call ∷ []) v.order
              ∙ append_assoc m.popped m.queue.queue (item_of call ∷ []);
          bound = omega (arith, length-append m.queue.queue (item_of call ∷ []));
          same = v.same;
        }))
    | inr (inl (closed, e)) ↦ rw e v
    | inr (inr (opened, full, e)) ↦
        rw e (record { order = v.order; bound = v.bound; same = v.same })
  ]

  retry-IsFifo : (k : ℕ) (m : Monitor T) → IsFifo m → IsFifo (retry k m)
  unfolding retry
  retry-IsFifo k m v = elim (Option-cases (pick k m.woken_push)) [
    | inl nobody ↦ rw (nobody, retry) v
    | inr ((call, rest), woken) ↦
        rw (woken, retry)
          (attempt_push-IsFifo call (record m { woken_push = rest })
            (record { order = v.order; bound = v.bound; same = v.same }))
  ]

  attempt_pop-IsFifo : (k : ℕ) (m : Monitor T) → IsFifo m → IsFifo (attempt_pop blank k m)
  attempt_pop-IsFifo k m v = elim (attempt_pop_cases blank k m) [
    | inl (x, rest, front, e) ↦ rw e (
        wake_push-IsFifo k _ (record {
          order = v.order ∙ ap (◌++◌ m.popped) front ∙ sym (append_assoc m.popped (x ∷ []) rest);
          bound = omega (arith, v.bound, ap length front);
          same = v.same;
        }))
    | inr (inl (nothing, closed, e)) ↦ rw e v
    | inr (inr (nothing, opened, e)) ↦
        rw e (record { order = v.order; bound = v.bound; same = v.same })
  ]

  step-IsFifo : (m : Monitor T) (e : Event T) → IsFifo m → IsFifo (step blank m e)
  unfolding step start_close close wake_all_pop wake_all_push
  step-IsFifo m (call_push call) v = attempt_push-IsFifo call m v
  step-IsFifo m (retry_push k) v = retry-IsFifo k m v
  step-IsFifo m (call_pop k) v = attempt_pop-IsFifo k m v
  step-IsFifo m (retry_pop k) v = elim (Bool-cases (m.woken_pop == 0)) [
    | inl nobody ↦ rw nobody v
    | inr somebody ↦ rw somebody (
        attempt_pop-IsFifo k (record m { woken_pop = m.woken_pop - 1 })
          (record { order = v.order; bound = v.bound; same = v.same }))
  ]
  step-IsFifo m call_close v = record { order = v.order; bound = v.bound; same = v.same }
  step-IsFifo m notify_not_empty v = ground (arith, v.order, v.bound, v.same)
  step-IsFifo m notify_not_full v = ground (arith, v.order, v.bound, v.same)
  step-IsFifo m (spurious_push k) v = wake_push-IsFifo k m v
  step-IsFifo m spurious_pop v = wake_pop-IsFifo m v

  run-IsFifo : (m : Monitor T) (es : List (Event T)) → IsFifo m → IsFifo (run blank m es)
  unfolding run
  run-IsFifo m [] v = v
  run-IsFifo m (e ∷ es) v = run-IsFifo (step blank m e) es (step-IsFifo m e v)

  -- After any schedule of producers, consumers and calls of close on a new queue, the items that
  -- entered are those that left, in order, followed by those in the queue, of which there are at
  -- most as many as the capacity.
  pub after_fifo :
      (es : List (Event T))
      → ((after blank capacity es).pushed
          ≡ (after blank capacity es).popped ++ (after blank capacity es).queue.queue)
        × (length (after blank capacity es).queue.queue ≤ capacity)
  unfolding initial new
  after_fifo es =
      let v =
        run-IsFifo (initial (new capacity)) es
          (record { order = refl; bound = omega arith; same = refl }) in
      (v.order, omega (arith, v.bound, v.same))

  pub capacity-after : (es : List (Event T)) → (after blank capacity es).queue.capacity ≡ capacity
  unfolding initial new
  capacity-after es =
      (run-IsFifo (initial (new capacity)) es
        (record { order = refl; bound = omega arith; same = refl })).same
