-- ===== src/SpscRingBuffer/Safety.antt =====
-- No schedule of one producer and one consumer loses, repeats, reorders or makes up an item, and the
-- two never touch one slot at a time.
use latency_lab.Base.{
  ℕ, ◌+◌, ◌<◌, ◌≡◌, ◌≢◌, sym, subst, inl, inr, List, [], ◌∷◌, ◌++◌, arith, length, ◌⊎◌,
}
use latency_lab.SpscRingBuffer.{Ring, size_mod, new}
use latency_lab.SpscRingBuffer.Window.{IsValid, contents}
use latency_lab.SpscRingBuffer.Queue.{new-IsValid}
use latency_lab.SpscRingBuffer.Threads.{Producer, Consumer, System, Event, step, run, initial}
use latency_lab.SpscRingBuffer.Inv.{ProducerKnows, ConsumerKnows, Inv}
use latency_lab.SpscRingBuffer.Steps.{step-Inv}

module _ {T : Type 0} (blank : T) where
  run-Inv : (s : System T) (es : List (Event T)) → Inv blank s → Inv blank (run blank s es)
  unfolding run
  run-Inv s [] v = v
  run-Inv s (e ∷ es) v = run-Inv (step blank s e) es (step-Inv blank s e v)

  initial-Inv : (limit : ℕ) → limit + 1 < size_mod → Inv blank (initial blank (new limit blank))
  unfolding initial
  initial-Inv limit h =
      let (v, nothing, _) = new-IsValid limit blank h in
      record { valid = v; fifo = sym nothing; producer = tt; consumer = tt }

  -- Both threads after a schedule, on a ring that was new.
  abbrev pub after : ℕ → List (Event T) → System T
  after limit es = run blank (initial blank (new limit blank)) es

  after-Inv : (limit : ℕ) (es : List (Event T)) → limit + 1 < size_mod → Inv blank (after limit es)
  after-Inv limit es h = run-Inv (initial blank (new limit blank)) es (initial-Inv limit h)

  -- After any interleaving of the accesses of one producer and one consumer from a new ring whose
  -- number of slots does not wrap, the items whose push succeeded are the items whose pop
  -- succeeded, in order, followed by the contents of the ring.
  pub run_fifo :
      (limit : ℕ) (es : List (Event T))
      → limit + 1 < size_mod
      → (after limit es).sent ≡ (after limit es).received ++ contents blank (after limit es).ring
  run_fifo limit es h = (after-Inv limit es h).fifo

  apart :
      (r : Ring T) (x : T) (h t : ℕ) (c : Consumer T)
      → IsValid r
      → ProducerKnows blank r (Producer.room x h)
      → (c ≡ Consumer.ready t) ⊎ ((y : T) × (c ≡ Consumer.taken y t))
      → ConsumerKnows blank r c
      → (h < length r.buffer) × (t < length r.buffer) × (h ≢ t)
  apart r x h t c v p (inl e) k =
      let k' = subst (ConsumerKnows blank r) e k in
      ground (arith, v.storage, v.head_in, v.tail_in, k', p)
  apart r x h t c v p (inr (y, e)) k =
      let k' = subst (ConsumerKnows blank r) e k in
      ground (arith, v.storage, v.head_in, v.tail_in, k', p)

  -- After any interleaving from a new ring whose number of slots does not wrap, the slot that the
  -- producer is about to write lies in the buffer, and so does the slot that the consumer is about
  -- to read, or has read and not yet released, and the two slots differ.
  pub run_race_free :
      (limit : ℕ) (es : List (Event T)) (x : T) (h t : ℕ)
      → limit + 1 < size_mod
      → (after limit es).producer ≡ Producer.room x h
      → ((after limit es).consumer ≡ Consumer.ready t)
        ⊎ ((y : T) × ((after limit es).consumer ≡ Consumer.taken y t))
      → (h < length (after limit es).ring.buffer)
        × (t < length (after limit es).ring.buffer)
        × (h ≢ t)
  run_race_free limit es x h t w p c =
      let v = after-Inv limit es w in
      apart (after limit es).ring x h t (after limit es).consumer v.valid
        (subst (ProducerKnows blank (after limit es).ring) p v.producer) c v.consumer
