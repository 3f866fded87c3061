-- ===== src/MutexQueue/Wakeups.antt =====
-- No wake-up is lost: whenever nobody is about to run, whoever sleeps has nothing to do.
use latency_lab.Base.{
  ℕ, zero, suc, ◌+◌, ◌-◌, ◌<◌, ◌≤◌, ◌≡◌, refl, ap, ◌==◌, true, false, Bool-cases, inl, inr, ◌⊎◌,
  List, [], ◌∷◌, ◌++◌, arith, length, length-append, none, some, Option-cases,
}
use latency_lab.MutexQueue.{new, close}
use latency_lab.MutexQueue.Threads.{
  Call, Monitor, Event, call_push, retry_push, call_pop, retry_pop, call_close, notify_not_empty,
  notify_not_full, spurious_push, spurious_pop, pick, item_of, wake_pop, wake_push, attempt_push,
  retry, start_close, wake_all_pop, wake_all_push, initial, attempt_pop, step, run, after,
}
use latency_lab.MutexQueue.Cases.{attempt_push_cases, attempt_pop_cases}
use latency_lab.MutexQueue.Fifo.{after_fifo, capacity-after}

pub pick-none {ℓ} : {A : Type ℓ} (k : ℕ) (xs : List A) → pick k xs ≡ none → length xs ≡ 0
pick-none k [] h = refl
pick-none k (x ∷ []) h = cc
pick-none zero (x ∷ y ∷ xs) h = cc
pick-none (suc k) (x ∷ y ∷ xs) h = absurd (ground arith)

pub length-pick {ℓ} :
    {A : Type ℓ} (k : ℕ) (xs rest : List A) (x : A)
    → pick k xs ≡ some (x, rest)
    → length xs ≡ suc (length rest)
length-pick k [] rest x h = cc
length-pick k (y ∷ []) rest x h = ground arith
length-pick zero (y ∷ z ∷ xs) rest x h = ground arith
length-pick (suc k) (y ∷ z ∷ xs) rest x h = elim (Option-cases (pick k (z ∷ xs))) [
  | inl nobody ↦ absurd (ground (arith, pick-none k (z ∷ xs) nobody))
  | inr ((w, others), e) ↦ ground (arith, e, length-pick k (z ∷ xs) others w e)
]

module _ {T : Type 0} where
  -- A consumer sleeps only while no more items stand in the queue than woken consumers are on their
  -- way, a producer only while no more places are free than woken producers are on their way, and
  -- neither sleeps at a closed queue unless `close` has yet to notify it.
  pub record IsAwake (m : Monitor T) : Type 0 where
    pub consumers : (m.sleeping_pop ≡ 0) ⊎ (length m.queue.queue ≤ m.woken_pop)
    pub producers :
        (m.queue.closed ≡ true)
        ⊎ ((length m.sleeping_push ≡ 0)
            ⊎ (m.queue.capacity ≤ length m.queue.queue + length m.woken_push))
    pub shut_pop : (m.queue.closed ≡ false) ⊎ ((m.sleeping_pop ≡ 0) ⊎ (0 < m.notify_empty))
    pub shut_push :
        (m.queue.closed ≡ false)
        ⊎ ((length m.sleeping_push ≡ 0) ⊎ (0 < m.notify_empty + m.notify_full))

  -- The same while one woken thread of each kind may have the mutex.
  record IsNearlyAwake (m : Monitor T) : Type 0 where
    consumers : (m.sleeping_pop ≡ 0) ⊎ (length m.queue.queue ≤ m.woken_pop + 1)
    producers :
        (m.queue.closed ≡ true)
        ⊎ ((length m.sleeping_push ≡ 0)
            ⊎ (m.queue.capacity ≤ length m.queue.queue + length m.woken_push + 1))
    shut_pop : (m.queue.closed ≡ false) ⊎ ((m.sleeping_pop ≡ 0) ⊎ (0 < m.notify_empty))
    shut_push :
        (m.queue.closed ≡ false)
        ⊎ ((length m.sleeping_push ≡ 0) ⊎ (0 < m.notify_empty + m.notify_full))

  wake_push_cases :
      (k : ℕ) (m : Monitor T)
      → ((length m.sleeping_push ≡ 0) × (wake_push k m ≡ m))
        ⊎ ((call : Call T) × (rest : List (Call T)) × (length m.sleeping_push ≡ suc (length rest))
            × (wake_push k m
                ≡ record m { sleeping_push = rest; woken_push = m.woken_push ++ call ∷ [] }))
  unfolding wake_push
  wake_push_cases k m = elim (Option-cases (pick k m.sleeping_push)) [
    | inl nobody ↦ inl (pick-none k m.sleeping_push nobody, ground (arith, nobody))
    | inr ((call, rest), e) ↦
        inr (call, rest, length-pick k m.sleeping_push rest call e, ground (arith, e))
  ]

  wake_push-IsAwake : (k : ℕ) (m : Monitor T) → IsAwake m → IsAwake (wake_push k m)
  wake_push-IsAwake k m v = elim (wake_push_cases k m) [
    | inl (nobody, e) ↦ rw e v
    | inr (call, rest, l, e) ↦ rw e (record {
      consumers = v.consumers;
      producers = ground (arith, v.producers, length-append m.woken_push (call ∷ []));
      shut_pop = v.shut_pop;
      shut_push = ground (arith, v.shut_push);
    })
  ]

  -- A place that has become free, or a producer that has one.
  freed-IsAwake :
      (k : ℕ) (m : Monitor T)
      → (m.sleeping_pop ≡ 0) ⊎ (length m.queue.queue ≤ m.woken_pop)
      → IsNearlyAwake m
      → IsAwake (wake_push k m)
  freed-IsAwake k m c v = elim (wake_push_cases k m) [
    | inl (nobody, e) ↦ rw e (record {
      consumers = c;
      producers = inr (inl nobody);
      shut_pop = v.shut_pop;
      shut_push = v.shut_push;
    })
    | inr (call, rest, l, e) ↦ rw e (record {
      consumers = c;
      producers = ground (arith, v.producers, length-append m.woken_push (call ∷ []));
      shut_pop = v.shut_pop;
      shut_push = ground (arith, v.shut_push);
    })
  ]

  wake_pop-IsAwake :
      (m : Monitor T)
      → (m.queue.closed ≡ true)
        ⊎ ((length m.sleeping_push ≡ 0)
            ⊎ (m.queue.capacity ≤ length m.queue.queue + length m.woken_push))
      → IsNearlyAwake m
      → IsAwake (wake_pop m)
  unfolding wake_pop
  wake_pop-IsAwake m p v = ground (arith, p, v.consumers, v.shut_pop, v.shut_push)

  attempt_push-IsAwake :
      (call : Call T) (m : Monitor T)
      → (m.sleeping_pop ≡ 0) ⊎ (length m.queue.queue ≤ m.woken_pop)
      → IsNearlyAwake m
      → IsAwake (attempt_push call m)
  attempt_push-IsAwake call m c v = elim (attempt_push_cases call m) [
    | inl (opened, room, e) ↦ rw e (
        wake_pop-IsAwake _
          (ground (arith, v.producers, length-append m.queue.queue (item_of call ∷ [])))
          (record {
            consumers = ground (arith, c, length-append m.queue.queue (item_of call ∷ []));
            producers =
                ground (arith, v.producers, length-append m.queue.queue (item_of call ∷ []));
            shut_pop = v.shut_pop;
            shut_push = v.shut_push;
          }))
    | inr (inl (closed, e)) ↦ rw e (record {
      consumers = c;
      producers = inl closed;
      shut_pop = v.shut_pop;
      shut_push = v.shut_push;
    })
    | inr (inr (opened, full, e)) ↦ rw e (record {
      consumers = c;
      producers = inr (inr (omega arith));
      shut_pop = v.shut_pop;
      shut_push = inl opened;
    })
  ]

  retry-IsAwake : (k : ℕ) (m : Monitor T) → IsAwake m → IsAwake (retry k m)
  unfolding retry
  retry-IsAwake k m v = elim (Option-cases (pick k m.woken_push)) [
    | inl nobody ↦ rw (nobody, retry) v
    | inr ((call, rest), e) ↦
        rw (e, retry)
          (attempt_push-IsAwake call (record m { woken_push = rest }) v.consumers
            (record {
              consumers = ground (arith, v.consumers);
              producers = ground (arith, v.producers, length-pick k m.woken_push rest call e);
              shut_pop = v.shut_pop;
              shut_push = v.shut_push;
            }))
  ]

module _ {T : Type 0} (blank : T) where
  attempt_pop-IsAwake :
      (k : ℕ) (m : Monitor T)
      → (m.queue.closed ≡ true)
        ⊎ ((length m.sleeping_push ≡ 0)
            ⊎ (m.queue.capacity ≤ length m.queue.queue + length m.woken_push))
      → IsNearlyAwake m
      → IsAwake (attempt_pop blank k m)
  attempt_pop-IsAwake k m p v = elim (attempt_pop_cases blank k m) [
    | inl (x, rest, front, e) ↦
        let shorter : length m.queue.queue ≡ suc (length rest) = ap length front in
        rw e (
          freed-IsAwake k _ (ground (arith, v.consumers, shorter)) (record {
            consumers = ground (arith, v.consumers, shorter);
            producers = ground (arith, p, shorter);
            shut_pop = v.shut_pop;
            shut_push = v.shut_push;
          }))
    | inr (inl (nothing, closed, e)) ↦ rw e (record {
      consumers = inr (omega (arith, ap length nothing));
      producers = p;
      shut_pop = v.shut_pop;
      shut_push = v.shut_push;
    })
    | inr (inr (nothing, opened, e)) ↦ rw e (record {
      consumers = inr (omega (arith, ap length nothing));
      producers = p;
      shut_pop = inl opened;
      shut_push = v.shut_push;
    })
  ]

  nearly : (m : Monitor T) → IsAwake m → IsNearlyAwake m
  nearly m v = record {
    consumers = ground (arith, v.consumers);
    producers = ground (arith, v.producers);
    shut_pop = v.shut_pop;
    shut_push = v.shut_push;
  }

  step-IsAwake : (m : Monitor T) (e : Event T) → IsAwake m → IsAwake (step blank m e)
  unfolding step start_close close wake_all_pop wake_all_push
  step-IsAwake m (call_push call) v = attempt_push-IsAwake call m v.consumers (nearly m v)
  step-IsAwake m (retry_push k) v = retry-IsAwake k m v
  step-IsAwake m (call_pop k) v = attempt_pop-IsAwake k m v.producers (nearly m v)
  step-IsAwake m (retry_pop k) v = elim (Bool-cases (m.woken_pop == 0)) [
    | inl nobody ↦ rw nobody v
    | inr somebody ↦ rw somebody (
        attempt_pop-IsAwake k (record m { woken_pop = m.woken_pop - 1 }) v.producers
          (record {
            consumers = ground (arith, v.consumers);
            producers = ground (arith, v.producers);
            shut_pop = v.shut_pop;
            shut_push = v.shut_push;
          }))
  ]
  step-IsAwake m call_close v = record {
    consumers = v.consumers;
    producers = inl refl;
    shut_pop = inr (inr (omega arith));
    shut_push = inr (inr (omega arith));
  }
  step-IsAwake m notify_not_empty v =
      ground (arith, v.consumers, v.producers, v.shut_pop, v.shut_push)
  step-IsAwake m notify_not_full v =
      ground (arith, v.consumers, v.producers, v.shut_pop, v.shut_push)
  step-IsAwake m (spurious_push k) v = wake_push-IsAwake k m v
  step-IsAwake m spurious_pop v = wake_pop-IsAwake m v.producers (nearly m v)

  run-IsAwake : (m : Monitor T) (es : List (Event T)) → IsAwake m → IsAwake (run blank m es)
  unfolding run
  run-IsAwake m [] v = v
  run-IsAwake m (e ∷ es) v = run-IsAwake (step blank m e) es (step-IsAwake m e v)

  pub after-IsAwake : (capacity : ℕ) (es : List (Event T)) → IsAwake (after blank capacity es)
  unfolding initial new
  after-IsAwake capacity es = run-IsAwake (initial (new capacity)) es (record {
    consumers = inl refl;
    producers = inr (inl refl);
    shut_pop = inl refl;
    shut_push = inl refl;
  })

  -- No thread has been woken and not yet run, and no `close` has yet to notify.
  abbrev pub IsQuiet : Monitor T → Type 0
  IsQuiet m =
      (length m.woken_push ≡ 0) × (m.woken_pop ≡ 0) × (m.notify_empty ≡ 0) × (m.notify_full ≡ 0)

  -- No wake-up is lost: after any schedule on a new queue that leaves no woken thread and no
  -- pending notification of close, a consumer sleeps only at an open and empty queue, a producer
  -- only at an open queue that holds as many items as the capacity, and unless the capacity is 0
  -- not both.
  pub after_awake :
      (capacity : ℕ) (es : List (Event T))
      → IsQuiet (after blank capacity es)
      → let m = after blank capacity es in
        ((m.sleeping_pop ≡ 0) ⊎ ((m.queue.closed ≡ false) × (length m.queue.queue ≡ 0)))
        × ((length m.sleeping_push ≡ 0)
            ⊎ ((m.queue.closed ≡ false) × (length m.queue.queue ≡ capacity)))
        × ((capacity ≡ 0) ⊎ ((m.sleeping_pop ≡ 0) ⊎ (length m.sleeping_push ≡ 0)))
  after_awake capacity es quiet =
      let v = after-IsAwake capacity es in
      let (_, bound) = after_fifo capacity blank es in
      let same = capacity-after capacity blank es in
      (
        ground (arith, v.consumers, v.shut_pop),
        ground (arith, v.producers, v.shut_push, bound, same),
        ground (arith, v.consumers, v.shut_pop, v.producers, v.shut_push, bound, same),
      )
