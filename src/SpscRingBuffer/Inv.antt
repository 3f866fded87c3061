-- ===== src/SpscRingBuffer/Inv.antt =====
-- What each thread knows of the ring between two of its accesses, and that the accesses of one thread
-- keep what the other knows.
use latency_lab.Base.{
  suc, ◌<◌, ◌≡◌, ◌≢◌, sym, ◌∙◌, ap, subst, [], ◌∷◌, ◌++◌, arith, get_or, set, get_or-set_ne,
}
use latency_lab.SpscRingBuffer.{Ring, increment}
use latency_lab.SpscRingBuffer.Window.{
  IsValid, used, slot-used, window, contents, window-set_past, window-snoc, used-push, used-full,
  used-pop,
}
use latency_lab.SpscRingBuffer.Threads.{Producer, Consumer, System}

module _ {T : Type 0} (blank : T) where
  -- What the producer knows: its slot is the ring's head, a room that it saw is still there, and what
  -- it wrote stands in the slot.
  abbrev pub ProducerKnows : Ring T → Producer T → Type 0
  ProducerKnows r Producer.outside = Unit {0}
  ProducerKnows r (Producer.loaded item head) = head ≡ r.head
  ProducerKnows r (Producer.room item head) =
      (head ≡ r.head) × (suc (used r.slots r.head r.tail) < r.slots)
  ProducerKnows r (Producer.written item head) =
      (head ≡ r.head)
      × (suc (used r.slots r.head r.tail) < r.slots)
      × (get_or r.buffer r.head blank ≡ item)

  -- What the consumer knows: its slot is the ring's tail, and an item that it saw is still there.
  abbrev pub ConsumerKnows : Ring T → Consumer T → Type 0
  ConsumerKnows r Consumer.outside = Unit {0}
  ConsumerKnows r (Consumer.loaded tail) = tail ≡ r.tail
  ConsumerKnows r (Consumer.ready tail) = (tail ≡ r.tail) × (r.tail ≢ r.head)
  ConsumerKnows r (Consumer.taken item tail) =
      (tail ≡ r.tail) × (r.tail ≢ r.head) × (get_or r.buffer r.tail blank ≡ item)

  pub record Inv (s : System T) : Type 0 where
    pub valid : IsValid s.ring
    pub fifo : s.sent ≡ s.received ++ contents blank s.ring
    pub producer : ProducerKnows s.ring s.producer
    pub consumer : ConsumerKnows s.ring s.consumer

  -- The producer writes its slot: no item in the ring changes.
  pub write-contents :
      (r : Ring T) (x : T)
      → IsValid r
      → suc (used r.slots r.head r.tail) < r.slots
      → window blank r.slots (set r.buffer r.head x) r.tail (used r.slots r.head r.tail)
        ≡ contents blank r
  write-contents r x v room =
      subst
        (λ i.
          window blank r.slots (set r.buffer i x) r.tail (used r.slots r.head r.tail)
          ≡ contents blank r)
        (slot-used r.slots r.head r.tail v.head_in v.tail_in)
        (window-set_past blank r.slots r.buffer r.tail (used r.slots r.head r.tail)
          (used r.slots r.head r.tail) x v.small v.tail_in (omega arith) (omega arith))

  pub room-ne :
      (r : Ring T)
      → IsValid r
      → suc (used r.slots r.head r.tail) < r.slots
      → increment r.slots r.head ≢ r.tail
  room-ne r v room e = omega (arith, used-full r.slots r.head r.tail v.small v.head_in v.tail_in e)

  -- The producer stores `head_`: the item in its slot joins the ring.
  pub publish-contents :
      (r : Ring T)
      → IsValid r
      → suc (used r.slots r.head r.tail) < r.slots
      → window blank r.slots r.buffer r.tail (used r.slots (increment r.slots r.head) r.tail)
        ≡ contents blank r ++ get_or r.buffer r.head blank ∷ []
  publish-contents r v room =
      let (grows, _, _) =
        used-push r.slots r.head r.tail v.small v.head_in v.tail_in (room-ne r v room) in
      ap (window blank r.slots r.buffer r.tail) grows
      ∙ window-snoc blank r.slots r.buffer r.tail (used r.slots r.head r.tail) v.small v.tail_in
          (omega arith)
      ∙ ap (λ i. contents blank r ++ get_or r.buffer i blank ∷ [])
          (slot-used r.slots r.head r.tail v.head_in v.tail_in)

  -- The consumer stores `tail_`: the item of its slot leaves the ring.
  pub release-contents :
      (r : Ring T)
      → IsValid r
      → r.tail ≢ r.head
      → contents blank r
        ≡ get_or r.buffer r.tail blank
          ∷ window blank r.slots r.buffer
              (increment r.slots r.tail)
              (used r.slots r.head (increment r.slots r.tail))
  release-contents r v ne =
      ap (window blank r.slots r.buffer r.tail)
        (used-pop r.slots r.head r.tail v.small v.head_in v.tail_in ne).0

  pub consumer-write :
      (r : Ring T) (x : T) (c : Consumer T)
      → ConsumerKnows r c
      → ConsumerKnows (record r { buffer = set r.buffer r.head x }) c
  consumer-write r x Consumer.outside k = tt
  consumer-write r x (Consumer.loaded tail) k = k
  consumer-write r x (Consumer.ready tail) k = k
  consumer-write r x (Consumer.taken item tail) k =
      (k.0, k.1, get_or-set_ne r.buffer r.head r.tail x blank (λ e. k.1 (sym e)) ∙ k.2)

  pub consumer-publish :
      (r : Ring T) (c : Consumer T)
      → increment r.slots r.head ≢ r.tail
      → ConsumerKnows r c
      → ConsumerKnows (record r { head = increment r.slots r.head }) c
  consumer-publish r Consumer.outside ne k = tt
  consumer-publish r (Consumer.loaded tail) ne k = k
  consumer-publish r (Consumer.ready tail) ne k = (k.0, λ e. ne (sym e))
  consumer-publish r (Consumer.taken item tail) ne k = (k.0, λ e. ne (sym e), k.2)

  pub producer-release :
      (r : Ring T) (p : Producer T)
      → IsValid r
      → r.tail ≢ r.head
      → ProducerKnows r p
      → ProducerKnows (record r { tail = increment r.slots r.tail }) p
  producer-release r p v ne k =
      keep p (used-pop r.slots r.head r.tail v.small v.head_in v.tail_in ne).0 k
    where
      keep :
          (p : Producer T)
          → used r.slots r.head r.tail ≡ suc (used r.slots r.head (increment r.slots r.tail))
          → ProducerKnows r p
          → ProducerKnows (record r { tail = increment r.slots r.tail }) p
      keep Producer.outside e k = tt
      keep (Producer.loaded x h) e k = k
      keep (Producer.room x h) e k = (k.0, omega arith)
      keep (Producer.written x h) e k = (k.0, omega arith, k.2)
