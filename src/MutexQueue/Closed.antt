-- ===== src/MutexQueue/Closed.antt =====
-- What `close` settles: nothing enters any more, and what stands in the queue can still leave.
use latency_lab.Base.{
  ℕ, ◌-◌, ◌≡◌, refl, ◌==◌, true, Bool-cases, inl, inr, List, [], ◌∷◌, arith, Option-cases,
}
use latency_lab.MutexQueue.{close}
use latency_lab.MutexQueue.Threads.{
  Call, Monitor, Event, call_push, retry_push, call_pop, retry_pop, call_close, notify_not_empty,
  notify_not_full, spurious_push, spurious_pop, pick, wake_pop, wake_push, attempt_push, retry,
  start_close, wake_all_pop, wake_all_push, attempt_pop, step, run,
}
use latency_lab.MutexQueue.Cases.{attempt_push_cases, attempt_pop_cases}

module _ {T : Type 0} (entered : List T) where
  -- The queue is closed, and `entered` is all that ever entered.
  abbrev IsShut : Monitor T → Type 0
  IsShut m = (m.queue.closed ≡ true) × (m.pushed ≡ entered)

  wake_push-IsShut : (k : ℕ) (m : Monitor T) → IsShut m → IsShut (wake_push k m)
  unfolding wake_push
  wake_push-IsShut k m v = ground arith

  attempt_push-IsShut : (call : Call T) (m : Monitor T) → IsShut m → IsShut (attempt_push call m)
  attempt_push-IsShut call m v = elim (attempt_push_cases call m) [
    | inl (opened, room, e) ↦ absurd (ground (arith, opened, v.0))
    | inr (inl (closed, e)) ↦ rw e v
    | inr (inr (opened, full, e)) ↦ absurd (ground (arith, opened, v.0))
  ]

  retry-IsShut : (k : ℕ) (m : Monitor T) → IsShut m → IsShut (retry k m)
  unfolding retry
  retry-IsShut k m v = elim (Option-cases (pick k m.woken_push)) [
    | inl nobody ↦ rw (nobody, retry) v
    | inr ((call, rest), e) ↦
        rw (e, retry) (attempt_push-IsShut call (record m { woken_push = rest }) v)
  ]

  module _ (blank : T) where
    attempt_pop-IsShut : (k : ℕ) (m : Monitor T) → IsShut m → IsShut (attempt_pop blank k m)
    attempt_pop-IsShut k m v = elim (attempt_pop_cases blank k m) [
      | inl (x, rest, front, e) ↦ rw e (wake_push-IsShut k _ v)
      | inr (inl (nothing, closed, e)) ↦ rw e v
      | inr (inr (nothing, opened, e)) ↦ rw e v
    ]

    step-IsShut : (m : Monitor T) (e : Event T) → IsShut m → IsShut (step blank m e)
    unfolding step start_close close wake_all_pop wake_all_push wake_pop
    step-IsShut m (call_push call) v = attempt_push-IsShut call m v
    step-IsShut m (retry_push k) v = retry-IsShut k m v
    step-IsShut m (call_pop k) v = attempt_pop-IsShut k m v
    step-IsShut m (retry_pop k) v = elim (Bool-cases (m.woken_pop == 0)) [
      | inl nobody ↦ rw nobody v
      | inr somebody ↦
          rw somebody (attempt_pop-IsShut k (record m { woken_pop = m.woken_pop - 1 }) v)
    ]
    step-IsShut m call_close v = (refl, v.1)
    step-IsShut m notify_not_empty v = ground arith
    step-IsShut m notify_not_full v = ground arith
    step-IsShut m (spurious_push k) v = wake_push-IsShut k m v
    step-IsShut m spurious_pop v = ground arith

    run-IsShut : (m : Monitor T) (es : List (Event T)) → IsShut m → IsShut (run blank m es)
    unfolding run
    run-IsShut m [] v = v
    run-IsShut m (e ∷ es) v = run-IsShut (step blank m e) es (step-IsShut m e v)

-- From a closed queue on, whatever the schedule, the queue stays closed and no item enters.
pub run_closed :
    {T : Type 0} (blank : T) (m : Monitor T) (es : List (Event T))
    → m.queue.closed ≡ true
    → ((run blank m es).queue.closed ≡ true) × ((run blank m es).pushed ≡ m.pushed)
run_closed blank m es h = run-IsShut m.pushed blank m es (h, refl)
