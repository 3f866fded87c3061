-- ===== src/ProducerConsumer/Sound.antt =====
-- Whatever the schedule, the consumer has worked through a front of the messages, in order; when it has
-- left its loop, through all.
use latency_lab.Base.{
  ℕ, ◌+◌, ◌≤◌, ◌%◌, ◌^◌, ◌≡◌, refl, sym, ◌∙◌, ap, subst, true, false, inl, inr, ◌⊎◌, List, [], ◌∷◌,
  ◌++◌, arith, length, length-append, map-append, Option,
}
use mathlib.Core.List.{append_assoc, append-nil}
use latency_lab.Base.Int.{ℤ}
use latency_lab.Message.{MarketMessage}
use latency_lab.MutexQueue
use latency_lab.MutexQueue.{BoundedMutexQueue, can_push, can_pop, push_with_mutation, pop, close}
use latency_lab.Worker.{MarketMessageEnvelope, stamp, Readings}
use latency_lab.Worker.Latencies.{HasWorked, new_worker-HasWorked, work-HasWorked}
use latency_lab.ProducerConsumer.{
  Producer, at_message, at_push, asleep_push, at_notify_empty, at_notify_full, ended, Consumer,
  at_pop, asleep_pop, finished, Program, Event, producer, consumer, spurious_push, spurious_pop,
  produce, consume, step, run, initial,
}
use latency_lab.ProducerConsumer.Places.{
  in_hand, has_closed, has_notified, is_asleep_push, is_asleep_pop, is_finished, not_notified,
  empty_hand, wake_producer_kept, wake_consumer_kept, waiting, push_cases, pop_cases,
}

module _ {B : Type 0} (on_message : B → MarketMessage → Option B) (messages : List MarketMessage)
    (start : B) (capacity : ℕ) where
  pub record IsSound (p : Program B) : Type 0 where
    pub passed : List MarketMessage
    pub all : messages ≡ passed ++ (waiting p.queue.queue ++ (in_hand p.producer ++ p.to_send))
    pub worked : HasWorked on_message start passed p.worker
    pub produced : p.produced ≡ (length passed + length p.queue.queue) % 2 ^ 64
    pub room : p.queue.capacity ≡ capacity
    pub closed : p.queue.closed ≡ has_closed p.producer
    pub sent : (has_closed p.producer ≡ false) ⊎ (p.to_send ≡ [])
    pub full : (is_asleep_push p.producer ≡ false) ⊎ (capacity ≤ length p.queue.queue)
    pub hungry :
        (is_asleep_pop p.consumer ≡ false)
        ⊎ ((p.queue.queue ≡ []) × (has_notified p.producer ≡ false))
    pub over :
        (is_finished p.consumer ≡ false) ⊎ ((p.queue.queue ≡ []) × (has_closed p.producer ≡ true))

  -- Where the consumer has left its loop, the queue is closed and empty.
  at_end :
      (p : Program B)
      → IsSound p
      → p.consumer ≡ finished
      → (p.queue.queue ≡ []) × (has_closed p.producer ≡ true)
  at_end p v e = ground (arith, v.over, e)

  push-IsSound :
      (item : MarketMessageEnvelope) (todo : List MarketMessage) (time : ℕ) (cpu : ℤ)
      (p : Program B)
      → p.producer ≡ at_push item
      → IsSound p
      → IsSound (produce (at_push item) todo time cpu p)
  unfolding produce
  push-IsSound item todo time cpu p e v =
      let is_open : p.queue.closed ≡ false = v.closed ∙ ap has_closed e in
      elim (push_cases p.queue item time is_open) [
        | inl (no_room, full) ↦
            rw (no_room, produce)
              (record {
                passed = v.passed;
                all =
                    v.all
                    ∙ ap (λ s. v.passed ++ (waiting p.queue.queue ++ (in_hand s ++ p.to_send))) e;
                worked = v.worked;
                produced = v.produced;
                room = v.room;
                closed = is_open;
                sent = inl refl;
                full = inr (omega (arith, full, v.room));
                hungry = ground (arith, v.hungry);
                over = ground (arith, v.over, e);
              })
        | inr (has_room, joined) ↦
            let item' : MarketMessageEnvelope = record item {
              queue_push_timestamp_ns = stamp time;
            } in
            let (kept, awake) = wake_consumer_kept p.consumer in
            rw (has_room, joined, produce)
              (record {
                passed = v.passed;
                all =
                    v.all
                    ∙ ap (λ s. v.passed ++ (waiting p.queue.queue ++ (in_hand s ++ p.to_send))) e
                    ∙ ap (◌++◌ v.passed)
                        (sym (append_assoc (waiting p.queue.queue) (item.message ∷ []) p.to_send))
                    ∙ ap (λ xs. v.passed ++ (xs ++ p.to_send))
                        (sym (map-append (λ x. x.message) p.queue.queue item'));
                worked = v.worked;
                produced = omega (arith, v.produced, length-append p.queue.queue (item' ∷ []));
                room = v.room;
                closed = is_open;
                sent = inl refl;
                full = inl refl;
                hungry = inl awake;
                over = inl (ground (arith, v.over, e, kept));
              })
      ]

  produce-IsSound :
      (s : Producer) (todo : List MarketMessage) (time : ℕ) (cpu : ℤ) (p : Program B)
      → p.producer ≡ s
      → p.to_send ≡ todo
      → IsSound p
      → IsSound (produce s todo time cpu p)
  unfolding produce close
  produce-IsSound at_message [] time cpu p e t v = record {
    passed = v.passed;
    all = v.all ∙ ap (λ s. v.passed ++ (waiting p.queue.queue ++ (in_hand s ++ p.to_send))) e;
    worked = v.worked;
    produced = v.produced;
    room = v.room;
    closed = refl;
    sent = inr t;
    full = inl refl;
    hungry = ground (arith, v.hungry);
    over = ground (arith, v.over);
  }
  produce-IsSound at_message (message ∷ rest) time cpu p e t v = record {
    passed = v.passed;
    all =
        v.all
        ∙ ap (λ s. v.passed ++ (waiting p.queue.queue ++ (in_hand s ++ p.to_send))) e
        ∙ ap (λ xs. v.passed ++ (waiting p.queue.queue ++ xs)) t;
    worked = v.worked;
    produced = v.produced;
    room = v.room;
    closed = v.closed ∙ ap has_closed e;
    sent = inl refl;
    full = inl refl;
    hungry = ground (arith, v.hungry);
    over = ground (arith, v.over, e);
  }
  produce-IsSound (at_push item) todo time cpu p e t v = push-IsSound item todo time cpu p e v
  produce-IsSound (asleep_push item) todo time cpu p e t v = v
  produce-IsSound at_notify_empty todo time cpu p e t v =
      let (kept, awake) = wake_consumer_kept p.consumer in
      record {
        passed = v.passed;
        all = v.all ∙ ap (λ s. v.passed ++ (waiting p.queue.queue ++ (in_hand s ++ p.to_send))) e;
        worked = v.worked;
        produced = v.produced;
        room = v.room;
        closed = v.closed ∙ ap has_closed e;
        sent = ground (arith, v.sent, e);
        full = inl refl;
        hungry = inl awake;
        over = ground (arith, v.over, kept);
      }
  produce-IsSound at_notify_full todo time cpu p e t v = record {
    passed = v.passed;
    all = v.all ∙ ap (λ s. v.passed ++ (waiting p.queue.queue ++ (in_hand s ++ p.to_send))) e;
    worked = v.worked;
    produced = v.produced;
    room = v.room;
    closed = v.closed ∙ ap has_closed e;
    sent = ground (arith, v.sent, e);
    full = inl refl;
    hungry = ground (arith, v.hungry, e);
    over = ground (arith, v.over);
  }
  produce-IsSound ended todo time cpu p e t v = v

  consume-IsSound :
      (c : Consumer) (readings : Readings) (p : Program B)
      → p.consumer ≡ c
      → IsSound p
      → IsSound (consume on_message c readings p)
  unfolding consume
  consume-IsSound at_pop readings p e v = elim (pop_cases p.queue p.envelope) [
    | inl (wait, nothing, still_open) ↦
        rw (wait, consume)
          (record {
            passed = v.passed;
            all = v.all;
            worked = v.worked;
            produced = v.produced;
            room = v.room;
            closed = v.closed;
            sent = v.sent;
            full = v.full;
            hungry = inr (nothing, not_notified p.producer (sym v.closed ∙ still_open));
            over = inl refl;
          })
    | inr (inl (ready, nothing, shut, r)) ↦
        rw (ready, r, consume)
          (record {
            passed = v.passed;
            all = v.all;
            worked = v.worked;
            produced = v.produced;
            room = v.room;
            closed = v.closed;
            sent = v.sent;
            full = v.full;
            hungry = inl refl;
            over = inr (nothing, sym v.closed ∙ shut);
          })
    | inr (inr (x, rest, ready, front, r)) ↦
        let (in_hand_kept, closed_kept, notified_kept, awake) = wake_producer_kept p.producer in
        rw (ready, r, consume)
          (record {
            passed = v.passed ++ x.message ∷ [];
            all =
                v.all
                ∙ ap (λ xs. v.passed ++ (waiting xs ++ (in_hand p.producer ++ p.to_send))) front
                ∙ sym (
                    append_assoc v.passed (x.message ∷ [])
                      (waiting rest ++ (in_hand p.producer ++ p.to_send)))
                ∙ ap (λ xs. (v.passed ++ x.message ∷ []) ++ (waiting rest ++ (xs ++ p.to_send)))
                    (sym in_hand_kept);
            worked = work-HasWorked on_message start v.passed p.worker x readings v.worked;
            produced =
                omega (arith, v.produced, ap length front, length-append v.passed (x.message ∷ []));
            room = v.room;
            closed = v.closed ∙ sym closed_kept;
            sent = ground (arith, v.sent, closed_kept);
            full = inl awake;
            hungry = inl (ap is_asleep_pop e);
            over = inl (ap is_finished e);
          })
  ]
  consume-IsSound asleep_pop readings p e v = v
  consume-IsSound finished readings p e v = v

  pub step-IsSound : (p : Program B) (e : Event) → IsSound p → IsSound (step on_message p e)
  unfolding step
  step-IsSound p (producer time cpu) v = produce-IsSound p.producer p.to_send time cpu p refl refl v
  step-IsSound p (consumer readings) v = consume-IsSound p.consumer readings p refl v
  step-IsSound p spurious_push v =
      let (in_hand_kept, closed_kept, notified_kept, awake) = wake_producer_kept p.producer in
      record {
        passed = v.passed;
        all =
            v.all
            ∙ ap (λ xs. v.passed ++ (waiting p.queue.queue ++ (xs ++ p.to_send)))
                (sym in_hand_kept);
        worked = v.worked;
        produced = v.produced;
        room = v.room;
        closed = v.closed ∙ sym closed_kept;
        sent = ground (arith, v.sent, closed_kept);
        full = inl awake;
        hungry = ground (arith, v.hungry, notified_kept);
        over = ground (arith, v.over, closed_kept);
      }
  step-IsSound p spurious_pop v =
      let (kept, awake) = wake_consumer_kept p.consumer in
      record {
        passed = v.passed;
        all = v.all;
        worked = v.worked;
        produced = v.produced;
        room = v.room;
        closed = v.closed;
        sent = v.sent;
        full = v.full;
        hungry = inl awake;
        over = ground (arith, v.over, kept);
      }

  pub run-IsSound : (p : Program B) (es : List Event) → IsSound p → IsSound (run on_message p es)
  unfolding run
  run-IsSound p [] v = v
  run-IsSound p (e ∷ es) v = run-IsSound (step on_message p e) es (step-IsSound p e v)

  module _ (blank : MarketMessageEnvelope) (producer_cpu consumer_cpu : ℤ) where
    abbrev pub at_start : Program B
    at_start = initial capacity blank messages start producer_cpu consumer_cpu

    pub initial-IsSound : IsSound at_start
    unfolding initial MutexQueue.new
    initial-IsSound = record {
      passed = [];
      all = refl;
      worked = new_worker-HasWorked on_message start consumer_cpu;
      produced = omega arith;
      room = refl;
      closed = refl;
      sent = inl refl;
      full = inl refl;
      hungry = inl refl;
      over = inl refl;
    }

    -- After any schedule, spurious wake-ups included, that has brought the consumer to the end of
    -- its loop, it has worked through all messages, in order: the book is the one that they make
    -- one after the other, the counter counts them modulo 2^64, and each recorder has a sample for
    -- each. The counter of the producer counts them too.
    pub run_complete :
        (es : List Event)
        → (run on_message at_start es).consumer ≡ finished
        → HasWorked on_message start messages (run on_message at_start es).worker
          × ((run on_message at_start es).produced ≡ length messages % 2 ^ 64)
    run_complete es e =
        let p = run on_message at_start es in
        let v = run-IsSound at_start es initial-IsSound in
        let (nothing, shut) = at_end p v e in
        let sent : p.to_send ≡ [] = ground (arith, v.sent, shut) in
        let all : v.passed ≡ messages = sym (
          v.all
          ∙ ap (λ xs. v.passed ++ (waiting xs ++ (in_hand p.producer ++ p.to_send))) nothing
          ∙ ap (λ xs. v.passed ++ (xs ++ p.to_send)) (empty_hand p.producer shut)
          ∙ ap (◌++◌ v.passed) sent
          ∙ append-nil v.passed) in
        (
          subst (λ xs. HasWorked on_message start xs p.worker) all v.worked,
          ground (arith, v.produced, ap length all, ap length nothing),
        )
