-- ===== src/SpscRingBuffer/Threads.antt =====
-- One producer thread and one consumer thread on a ring, interleaved at their accesses to the shared
-- memory: the loads and stores of the atomic indices and the access to a slot. All accesses are taken
-- in one order that both threads see. What `push` and `pop` hold in local variables between two
-- accesses is the thread's state.
use latency_lab.Base.{ℕ, ◌==◌, if◌then◌else◌, List, [], ◌∷◌, ◌++◌, get_or, set}
use latency_lab.SpscRingBuffer.{Ring, increment}

-- Where the producer stands in `push(item)`; `head` is its local variable.
pub data Producer (T : Type 0) : Type 0 where
  -- outside `push`
  outside : Producer T
  -- has loaded `head_`
  loaded : (item : T) (head : ℕ) → Producer T
  -- has seen that `tail_` is another slot than the next one
  room : (item : T) (head : ℕ) → Producer T
  -- has written the slot
  written : (item : T) (head : ℕ) → Producer T

-- Where the consumer stands in `pop`; `tail` is its local variable.
pub data Consumer (T : Type 0) : Type 0 where
  outside : Consumer T
  -- has loaded `tail_`
  loaded : (tail : ℕ) → Consumer T
  -- has seen that `head_` is another slot
  ready : (tail : ℕ) → Consumer T
  -- has read the slot
  taken : (item : T) (tail : ℕ) → Consumer T

-- `sent` and `received` are the items of the calls of `push` and `pop` that returned `true`.
pub record System (T : Type 0) : Type 0 where
  pub ring : Ring T
  pub producer : Producer T
  pub consumer : Consumer T
  pub sent : List T
  pub received : List T

-- Which thread makes its next access. `start x` lets the producer, outside `push`, call `push(x)`.
pub data Event (T : Type 0) : Type 0 where
  start : T → Event T
  produce : Event T
  consume : Event T

module _ {T : Type 0} where
  abbrev pub start_at : Producer T → T → System T → System T
  start_at Producer.outside x s = record s { producer = Producer.loaded x s.ring.head }
  start_at _ x s = s

  abbrev pub produce_at : Producer T → System T → System T
  produce_at Producer.outside s = s
  produce_at (Producer.loaded item head) s =
      if increment s.ring.slots head == s.ring.tail
      then record s { producer = Producer.outside }
      else record s { producer = Producer.room item head }
  produce_at (Producer.room item head) s = record s {
    ring = record (s.ring) { buffer = set s.ring.buffer head item };
    producer = Producer.written item head;
  }
  produce_at (Producer.written item head) s = record s {
    ring = record (s.ring) { head = increment s.ring.slots head };
    producer = Producer.outside;
    sent = s.sent ++ item ∷ [];
  }

module _ {T : Type 0} (blank : T) where
  abbrev pub consume_at : Consumer T → System T → System T
  consume_at Consumer.outside s = record s { consumer = Consumer.loaded s.ring.tail }
  consume_at (Consumer.loaded tail) s =
      if tail == s.ring.head
      then record s { consumer = Consumer.outside }
      else record s { consumer = Consumer.ready tail }
  consume_at (Consumer.ready tail) s = record s {
    consumer = Consumer.taken (get_or s.ring.buffer tail blank) tail;
  }
  consume_at (Consumer.taken item tail) s = record s {
    ring = record (s.ring) { tail = increment s.ring.slots tail };
    consumer = Consumer.outside;
    received = s.received ++ item ∷ [];
  }

  unfoldable pub step : System T → Event T → System T
  step s (start x) = start_at s.producer x s
  step s produce = produce_at s.producer s
  step s consume = consume_at s.consumer s

  -- A schedule of both threads.
  unfoldable pub run : System T → List (Event T) → System T
  run s [] = s
  run s (e ∷ es) = run (step s e) es

  -- Both threads before their first call, at a new ring.
  unfoldable pub initial : Ring T → System T
  initial r = record {
    ring = r;
    producer = Producer.outside;
    consumer = Consumer.outside;
    sent = [];
    received = [];
  }
