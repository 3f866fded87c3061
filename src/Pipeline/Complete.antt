-- ===== src/Pipeline/Complete.antt =====
-- When the consumer has left its loop it has applied every message, in order, and no other.
use latency_lab.Base.{
  ℕ, ◌+◌, ◌<◌, ◌%◌, ◌^◌, ◌≡◌, refl, sym, ◌∙◌, ap, ap₂, subst, true, false, Bool-cases, inl, inr,
  ◌⊎◌, List, [], ◌∷◌, ◌++◌, map, arith, length, length-append, map-append, length-map, Option,
}
use mathlib.Core.List.{append_assoc, append-nil}
use latency_lab.Base.Int.{ℤ}
use latency_lab.Message.{MarketMessage}
use latency_lab.SpscRingBuffer.{Ring, size_mod, new, push, pop, is_empty}
use latency_lab.SpscRingBuffer.Window.{IsValid, contents}
use latency_lab.SpscRingBuffer.Queue.{
  enqueue, dequeue, new-IsValid, push-IsValid, pop-IsValid, push_refines, pop_refines,
  is_empty-contents,
}
use latency_lab.Worker.{MarketMessageEnvelope, stamp, Readings}
use latency_lab.Worker.Latencies.{HasWorked, new_worker-HasWorked, work-HasWorked}
use latency_lab.Pipeline.{
  Producer, at_message, at_push, ended, Consumer, at_done, at_empty, at_pop, finished, Pipeline,
  Event, producer, consumer, produce, consume, step, run, initial,
}

dequeue_cases :
    {T : Type 0} (q : List T) (item : T)
    → ((dequeue q item).0 ≡ false)
      ⊎ (((dequeue q item).0 ≡ true) × (q ≡ (dequeue q item).1 ∷ (dequeue q item).2))
unfolding dequeue
dequeue_cases [] item = inl refl
dequeue_cases (x ∷ q) item = inr (refl, refl)

module _ {T : Type 0} (blank : T) (r : Ring T) (v : IsValid r) where
  -- `push` fails and changes nothing, or its item joins the end.
  push_cases :
      (x : T)
      → ((push r x).0 ≡ false)
        ⊎ (((push r x).0 ≡ true) × (contents blank (push r x).1 ≡ contents blank r ++ x ∷ []))
  unfolding enqueue
  push_cases x = ground (arith, push_refines blank r x v)

  -- `pop` fails, or takes the front.
  pop_cases :
      (item : T)
      → ((pop r item).0 ≡ false)
        ⊎ (((pop r item).0 ≡ true)
            × (contents blank r ≡ (pop r item).1 ∷ contents blank (pop r item).2))
  pop_cases item =
      subst (λ d. (d.0 ≡ false) ⊎ ((d.0 ≡ true) × (contents blank r ≡ d.1 ∷ d.2)))
        (sym (pop_refines blank r item v)) (dequeue_cases (contents blank r) item)

module _ {B : Type 0} (on_message : B → MarketMessage → Option B) (blank : MarketMessageEnvelope)
    (messages : List MarketMessage) (start : B) where
  -- The messages in the queue.
  abbrev waiting : Ring MarketMessageEnvelope → List MarketMessage
  waiting r = map (λ e. e.message) (contents blank r)

  -- What the consumer has learned: behind the load of `producer_done` that all is sent, and behind
  -- its loop that the queue is empty as well.
  abbrev Learned : Consumer → Pipeline B → Type 0
  Learned at_done p = Unit {0}
  Learned at_empty p = p.to_send ≡ []
  Learned at_pop p = Unit {0}
  Learned finished p = (p.to_send ≡ []) × (waiting p.queue ≡ [])

  record IsSound (p : Pipeline B) : Type 0 where
    valid : IsValid p.queue
    passed : List MarketMessage
    all : messages ≡ passed ++ (waiting p.queue ++ p.to_send)
    worked : HasWorked on_message start passed p.worker
    produced : p.produced ≡ (length passed + length (waiting p.queue)) % 2 ^ 64
    done : (p.producer_done ≡ false) ⊎ (p.to_send ≡ [])
    learned : Learned p.consumer p

  -- Everything is sent: the learned facts stay.
  Learned-sent :
      (c : Consumer) (p : Pipeline B)
      → p.to_send ≡ []
      → Learned c p
      → Learned c (record p { producer_done = true; producer = ended })
  Learned-sent at_done p e k = tt
  Learned-sent at_empty p e k = k
  Learned-sent at_pop p e k = tt
  Learned-sent finished p e k = k

  -- While there is something to send the consumer has learned nothing.
  Learned-sending :
      (c : Consumer) (p p' : Pipeline B) (message : MarketMessage) (rest : List MarketMessage)
      → p.to_send ≡ message ∷ rest
      → Learned c p
      → Learned c p'
  Learned-sending at_done p p' message rest e k = tt
  Learned-sending at_empty p p' message rest e k = cc
  Learned-sending at_pop p p' message rest e k = tt
  Learned-sending finished p p' message rest e k = cc

  -- A change of what the consumer never looks at.
  keep :
      (p p' : Pipeline B)
      → p'.queue ≡ p.queue
      → p'.to_send ≡ p.to_send
      → p'.worker ≡ p.worker
      → p'.produced ≡ p.produced
      → (p'.producer_done ≡ false) ⊎ (p'.to_send ≡ [])
      → Learned p'.consumer p'
      → IsSound p
      → IsSound p'
  keep p p' q s w n d l v = record {
    valid = subst IsValid (sym q) v.valid;
    passed = v.passed;
    all = v.all ∙ ap₂ (λ q' s'. v.passed ++ (waiting q' ++ s')) (sym q) (sym s);
    worked = subst (HasWorked on_message start v.passed) (sym w) v.worked;
    produced = n ∙ v.produced ∙ ap (λ q'. (length v.passed + length (waiting q')) % 2 ^ 64) (sym q);
    done = d;
    learned = l;
  }

  attempt-IsSound :
      (t : ℕ) (message : MarketMessage) (rest : List MarketMessage) (time : ℕ) (cpu : ℤ)
      (p : Pipeline B)
      → p.to_send ≡ message ∷ rest
      → IsSound p
      → IsSound (produce (at_push t) (message ∷ rest) time cpu p)
  unfolding produce
  attempt-IsSound t message rest time cpu p e v = elim (push_cases blank p.queue v.valid envelope) [
    | inl full ↦
        rw (full, produce)
          (keep p _ refl refl refl refl v.done
            (Learned-sending p.consumer p _ message rest e v.learned) v)
    | inr (ok, joined) ↦
        let grown : waiting (push p.queue envelope).1 ≡ waiting p.queue ++ message ∷ [] =
          ap (map (λ e. e.message)) joined
          ∙ map-append (λ e. e.message) (contents blank p.queue) envelope in
        rw (ok, produce)
          (record {
            valid = push-IsValid p.queue envelope v.valid;
            passed = v.passed;
            all =
                v.all
                ∙ ap (λ xs. v.passed ++ (waiting p.queue ++ xs)) e
                ∙ ap (◌++◌ v.passed) (sym (append_assoc (waiting p.queue) (message ∷ []) rest))
                ∙ ap (λ xs. v.passed ++ (xs ++ rest)) (sym grown);
            worked = v.worked;
            produced = ground (
              arith,
              v.produced,
              ap length grown,
              length-append (waiting p.queue) (message ∷ []),
            );
            done = ground (arith, v.done, e);
            learned = Learned-sending p.consumer p _ message rest e v.learned;
          })
  ]
    where
      envelope : MarketMessageEnvelope
      envelope = record {
        message = message;
        producer_timestamp_ns = t;
        queue_push_timestamp_ns = stamp time;
      }

  produce-IsSound :
      (s : Producer) (todo : List MarketMessage) (time : ℕ) (cpu : ℤ) (p : Pipeline B)
      → p.to_send ≡ todo
      → IsSound p
      → IsSound (produce s todo time cpu p)
  unfolding produce
  produce-IsSound at_message [] time cpu p e v =
      keep p _ refl refl refl refl (inr e) (Learned-sent p.consumer p e v.learned) v
  produce-IsSound at_message (message ∷ rest) time cpu p e v =
      keep p _ refl refl refl refl v.done (Learned-sending p.consumer p _ message rest e v.learned)
        v
  produce-IsSound (at_push t) [] time cpu p e v = v
  produce-IsSound (at_push t) (message ∷ rest) time cpu p e v =
      attempt-IsSound t message rest time cpu p e v
  produce-IsSound ended todo time cpu p e v = v

  consume-IsSound :
      (c : Consumer) (readings : Readings) (p : Pipeline B)
      → p.consumer ≡ c
      → IsSound p
      → IsSound (consume on_message c readings p)
  unfolding consume
  consume-IsSound at_done readings p e v = elim (Bool-cases p.producer_done) [
    | inl all_sent ↦
        let sent : p.to_send ≡ [] = ground (arith, v.done, all_sent) in
        rw (all_sent, consume)
          (keep p (record p { producer_done = true; consumer = at_empty }) refl refl refl refl
            (inr sent) sent v)
    | inr other ↦
        rw (other, consume)
          (keep p (record p { producer_done = false; consumer = at_pop }) refl refl refl refl
            (inl refl) tt v)
  ]
  consume-IsSound at_empty readings p e v = elim (Bool-cases (is_empty p.queue)) [
    | inl nothing ↦
        rw (nothing, consume)
          (keep p _ refl refl refl refl v.done
            (
              subst (λ c. Learned c p) e v.learned,
              ap (map (λ e. e.message)) ((is_empty-contents blank p.queue v.valid).0 nothing),
            )
            v)
    | inr other ↦ rw (other, consume) (keep p _ refl refl refl refl v.done tt v)
  ]
  consume-IsSound at_pop readings p e v = elim (pop_cases blank p.queue v.valid p.envelope) [
    | inl nothing ↦ rw (nothing, consume) (keep p _ refl refl refl refl v.done tt v)
    | inr (ok, front) ↦
        let r = pop p.queue p.envelope in
        let shrunk : waiting p.queue ≡ r.1.message ∷ waiting r.2 =
          ap (map (λ e. e.message)) front in
        rw (ok, consume)
          (record {
            valid = pop-IsValid p.queue p.envelope v.valid;
            passed = v.passed ++ r.1.message ∷ [];
            all =
                v.all
                ∙ ap (λ xs. v.passed ++ (xs ++ p.to_send)) shrunk
                ∙ sym (append_assoc v.passed (r.1.message ∷ []) (waiting r.2 ++ p.to_send));
            worked = work-HasWorked on_message start v.passed p.worker r.1 readings v.worked;
            produced =
                ground
                  (arith, v.produced, ap length shrunk, length-append v.passed (r.1.message ∷ []));
            done = v.done;
            learned = tt;
          })
  ]
  consume-IsSound finished readings p e v = v

  step-IsSound : (p : Pipeline B) (e : Event) → IsSound p → IsSound (step on_message p e)
  unfolding step
  step-IsSound p (producer time cpu) v = produce-IsSound p.producer p.to_send time cpu p refl v
  step-IsSound p (consumer readings) v = consume-IsSound p.consumer readings p refl v

  run-IsSound : (p : Pipeline B) (es : List Event) → IsSound p → IsSound (run on_message p es)
  unfolding run
  run-IsSound p [] v = v
  run-IsSound p (e ∷ es) v = run-IsSound (step on_message p e) es (step-IsSound p e v)

  -- Both loops after a schedule, on a new ring.
  abbrev pub after : ℕ → ℤ → ℤ → List Event → Pipeline B
  after limit producer_cpu consumer_cpu es =
      run on_message (initial (new limit blank) blank messages start producer_cpu consumer_cpu) es

  after-IsSound :
      (limit : ℕ) (producer_cpu consumer_cpu : ℤ) (es : List Event)
      → limit + 1 < size_mod
      → IsSound (after limit producer_cpu consumer_cpu es)
  unfolding initial
  after-IsSound limit producer_cpu consumer_cpu es h =
      let (v, nothing, _) = new-IsValid limit blank h in
      run-IsSound (initial (new limit blank) blank messages start producer_cpu consumer_cpu) es
        (record {
          valid = v;
          passed = [];
          all = sym (ap (λ xs. map (λ e. e.message) xs ++ messages) nothing);
          worked = new_worker-HasWorked on_message start consumer_cpu;
          produced = ground (
            arith,
            ap length nothing,
            length-map (λ (e : MarketMessageEnvelope). e.message)
                (contents blank (new limit blank)),
          );
          done = inl refl;
          learned = tt;
        })

  -- On a new ring whose number of slots does not wrap, and with either book: after any schedule
  -- that has brought the consumer to the end of its loop, the consumer has worked through all
  -- messages, in order: the book is the one that they make one after the other, its counter counts
  -- them modulo 2^64, and each of its recorders has a sample for each. The producer's counter
  -- counts them too.
  pub after_complete :
      (limit : ℕ) (producer_cpu consumer_cpu : ℤ) (es : List Event)
      → limit + 1 < size_mod
      → (after limit producer_cpu consumer_cpu es).consumer ≡ finished
      → HasWorked on_message start messages (after limit producer_cpu consumer_cpu es).worker
        × ((after limit producer_cpu consumer_cpu es).produced ≡ length messages % 2 ^ 64)
  after_complete limit producer_cpu consumer_cpu es h e =
      let p = after limit producer_cpu consumer_cpu es in
      let v = after-IsSound limit producer_cpu consumer_cpu es h in
      let (sent, nothing) = subst (λ c. Learned c p) e v.learned in
      let all : v.passed ≡ messages = sym (
        v.all
        ∙ ap (λ xs. v.passed ++ (xs ++ p.to_send)) nothing
        ∙ ap (◌++◌ v.passed) sent
        ∙ append-nil v.passed) in
      (
        subst (λ xs. HasWorked on_message start xs p.worker) all v.worked,
        ground (arith, v.produced, ap length all, ap length nothing),
      )
