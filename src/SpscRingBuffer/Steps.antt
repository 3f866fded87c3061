-- ===== src/SpscRingBuffer/Steps.antt =====
-- Each step of a thread keeps the order of the items and what both threads know.
use latency_lab.Base.{
  ℕ, suc, ◌<◌, ◌≡◌, refl, ◌≢◌, sym, ◌∙◌, ap, subst, ◌==◌, Bool-cases, inl, inr, [], ◌∷◌, ◌++◌,
  arith, get_or, length-set, get_or-set_self,
}
use mathlib.Core.List.{append_assoc}
use latency_lab.SpscRingBuffer.{increment}
use latency_lab.SpscRingBuffer.Window.{used, window, contents, used-push, used-pop}
use latency_lab.SpscRingBuffer.Threads.{
  Producer, Consumer, System, Event, start, produce, consume, start_at, produce_at, consume_at,
  step,
}
use latency_lab.SpscRingBuffer.Inv.{
  ProducerKnows, ConsumerKnows, Inv, write-contents, room-ne, publish-contents, release-contents,
  consumer-write, consumer-publish, producer-release,
}

module _ {T : Type 0} (blank : T) where
  start-Inv : (p : Producer T) (x : T) (s : System T) → Inv blank s → Inv blank (start_at p x s)
  start-Inv Producer.outside x s v = record {
    valid = v.valid;
    fifo = v.fifo;
    producer = refl;
    consumer = v.consumer;
  }
  start-Inv (Producer.loaded y h) x s v = v
  start-Inv (Producer.room y h) x s v = v
  start-Inv (Producer.written y h) x s v = v

  -- `push` returns `false`, or goes on with a room that it has seen.
  look-Inv :
      (x : T) (h : ℕ) (s : System T)
      → Inv blank s
      → h ≡ s.ring.head
      → Inv blank (produce_at (Producer.loaded x h) s)
  look-Inv x h s v k = elim (Bool-cases (increment s.ring.slots h == s.ring.tail)) [
    | inl full ↦
        rw full (record { valid = v.valid; fifo = v.fifo; producer = tt; consumer = v.consumer })
    | inr room ↦ rw room (record {
      valid = v.valid;
      fifo = v.fifo;
      producer = (
        k,
        ground (
          arith,
          used-push s.ring.slots s.ring.head s.ring.tail v.valid.small v.valid.head_in
              v.valid.tail_in,
        ),
      );
      consumer = v.consumer;
    })
  ]

  write-Inv :
      (x : T) (s : System T)
      → Inv blank s
      → suc (used s.ring.slots s.ring.head s.ring.tail) < s.ring.slots
      → Inv blank (produce_at (Producer.room x s.ring.head) s)
  write-Inv x s v room = record {
    valid = record {
      positive = v.valid.positive;
      small = v.valid.small;
      storage = length-set s.ring.buffer s.ring.head x ∙ v.valid.storage;
      head_in = v.valid.head_in;
      tail_in = v.valid.tail_in;
    };
    fifo = v.fifo ∙ ap (◌++◌ s.received) (sym (write-contents blank s.ring x v.valid room));
    producer = (refl, room, get_or-set_self s.ring.buffer s.ring.head x blank (omega arith));
    consumer = consumer-write blank s.ring x s.consumer v.consumer;
  }

  publish-Inv :
      (x : T) (s : System T)
      → Inv blank s
      → suc (used s.ring.slots s.ring.head s.ring.tail) < s.ring.slots
      → get_or s.ring.buffer s.ring.head blank ≡ x
      → Inv blank (produce_at (Producer.written x s.ring.head) s)
  publish-Inv x s v room there = record {
    valid = record {
      positive = v.valid.positive;
      small = v.valid.small;
      storage = v.valid.storage;
      head_in =
          (used-push s.ring.slots s.ring.head s.ring.tail v.valid.small v.valid.head_in
            v.valid.tail_in (room-ne blank s.ring v.valid room)).2;
      tail_in = v.valid.tail_in;
    };
    fifo = grown;
    producer = tt;
    consumer =
        consumer-publish blank s.ring s.consumer (room-ne blank s.ring v.valid room) v.consumer;
  }
    where
      grown :
          s.sent ++ x ∷ []
          ≡ s.received
            ++ window blank s.ring.slots s.ring.buffer s.ring.tail
                (used s.ring.slots (increment s.ring.slots s.ring.head) s.ring.tail)
      grown =
          rw (publish-contents blank s.ring v.valid room, there, v.fifo)
            (append_assoc s.received (contents blank s.ring) (x ∷ []))

  produce-Inv :
      (p : Producer T) (s : System T)
      → ProducerKnows blank s.ring p
      → Inv blank s
      → Inv blank (produce_at p s)
  produce-Inv Producer.outside s k v = v
  produce-Inv (Producer.loaded x h) s k v = look-Inv x h s v k
  produce-Inv (Producer.room x h) s k v =
      subst (λ i. Inv blank (produce_at (Producer.room x i) s)) (sym k.0) (write-Inv x s v k.1)
  produce-Inv (Producer.written x h) s k v =
      subst (λ i. Inv blank (produce_at (Producer.written x i) s)) (sym k.0)
        (publish-Inv x s v k.1 k.2)

  release-Inv :
      (x : T) (s : System T)
      → Inv blank s
      → s.ring.tail ≢ s.ring.head
      → get_or s.ring.buffer s.ring.tail blank ≡ x
      → Inv blank (consume_at blank (Consumer.taken x s.ring.tail) s)
  release-Inv x s v ne there = record {
    valid = record {
      positive = v.valid.positive;
      small = v.valid.small;
      storage = v.valid.storage;
      head_in = v.valid.head_in;
      tail_in =
          (used-pop s.ring.slots s.ring.head s.ring.tail v.valid.small v.valid.head_in
            v.valid.tail_in ne).1;
    };
    fifo = moved;
    producer = producer-release blank s.ring s.producer v.valid ne v.producer;
    consumer = tt;
  }
    where
      moved :
          s.sent
          ≡ (s.received ++ x ∷ [])
            ++ window blank s.ring.slots s.ring.buffer
                (increment s.ring.slots s.ring.tail)
                (used s.ring.slots s.ring.head (increment s.ring.slots s.ring.tail))
      moved =
          rw (append_assoc, ← there)
            (v.fifo ∙ ap (◌++◌ s.received) (release-contents blank s.ring v.valid ne))

  consume-Inv :
      (c : Consumer T) (s : System T)
      → ConsumerKnows blank s.ring c
      → Inv blank s
      → Inv blank (consume_at blank c s)
  consume-Inv Consumer.outside s k v = record {
    valid = v.valid;
    fifo = v.fifo;
    producer = v.producer;
    consumer = refl;
  }
  consume-Inv (Consumer.loaded tail) s k v = elim (Bool-cases (tail == s.ring.head)) [
    | inl nothing ↦
        rw nothing (record { valid = v.valid; fifo = v.fifo; producer = v.producer; consumer = tt })
    | inr something ↦ rw something (record {
      valid = v.valid;
      fifo = v.fifo;
      producer = v.producer;
      consumer = (k, ground arith);
    })
  ]
  consume-Inv (Consumer.ready tail) s k v = record {
    valid = v.valid;
    fifo = v.fifo;
    producer = v.producer;
    consumer = (k.0, k.1, ap (λ i. get_or s.ring.buffer i blank) (sym k.0));
  }
  consume-Inv (Consumer.taken x tail) s k v =
      subst (λ i. Inv blank (consume_at blank (Consumer.taken x i) s)) (sym k.0)
        (release-Inv x s v k.1 k.2)

  pub step-Inv : (s : System T) (e : Event T) → Inv blank s → Inv blank (step blank s e)
  unfolding step
  step-Inv s (start x) v = start-Inv s.producer x s v
  step-Inv s produce v = produce-Inv s.producer s v.producer v
  step-Inv s consume v = consume-Inv s.consumer s v.consumer v
