-- ===== src/SpscRingBuffer/Queue.antt =====
-- A ring with no other thread at work is a queue of at most `capacity` items.
use latency_lab.Base.{
  ℕ, suc, ◌+◌, ◌%◌, ◌<◌, ◌≡◌, refl, ◌≢◌, ap, subst, ◌↔◌, get_or_default, ◌==◌, ltb, Bool, true,
  false, if◌then◌else◌, List, [], ◌∷◌, ◌++◌, arith, length, get_or, set, length-set,
  length-replicate, Bool-cases, inl, inr,
}
use latency_lab.SpscRingBuffer.{Ring, size_mod, increment, new, push, pop, is_empty, capacity}
use latency_lab.SpscRingBuffer.Window.{
  IsValid, used, slot-used, window, contents, length-window, window-set, used-push, used-full,
  used-pop, used-nil,
}

module _ {T : Type 0} where
  -- The bounded queue.
  unfoldable pub enqueue : ℕ → List T → T → Bool × List T
  enqueue limit q x = if ltb (length q) limit then (true, q ++ x ∷ []) else (false, q)

  unfoldable pub dequeue : List T → T → Bool × T × List T
  dequeue [] item = (false, item, [])
  dequeue (x ∷ q) item = (true, x, q)

  dequeue-nil : (item : T) → dequeue [] item ≡ (false, item, [])
  unfolding dequeue
  dequeue-nil item = refl

  dequeue-cons : (x : T) (q : List T) (item : T) → dequeue (x ∷ q) item ≡ (true, x, q)
  unfolding dequeue
  dequeue-cons x q item = refl

  -- A new ring whose number of slots does not wrap is valid, empty, and reports the capacity asked
  -- for.
  pub new-IsValid :
      (limit : ℕ) (blank : T)
      → limit + 1 < size_mod
      → IsValid (new limit blank)
        × (contents blank (new limit blank) ≡ [])
        × (capacity (new limit blank) ≡ limit)
  unfolding new capacity used
  new-IsValid limit blank h =
      (ground (arith, length-replicate ((limit + 1) % size_mod) blank), refl, omega arith)

  pub capacity-slots : (r : Ring T) → IsValid r → suc (capacity r) ≡ r.slots
  unfolding capacity
  capacity-slots r v = omega arith

  pub push-IsValid : (r : Ring T) (x : T) → IsValid r → IsValid (push r x).1
  unfolding push
  push-IsValid r x v = ground (
    arith,
    length-set r.buffer r.head x,
    used-push r.slots r.head r.tail v.small v.head_in v.tail_in,
  )

  pub pop-IsValid : (r : Ring T) (x : T) → IsValid r → IsValid (pop r x).2
  unfolding pop
  pop-IsValid r x v = ground (arith, used-pop r.slots r.head r.tail v.small v.head_in v.tail_in)

  module _ (blank : T) where
    length-contents : (r : Ring T) → length (contents blank r) ≡ used r.slots r.head r.tail
    length-contents r = length-window blank r.slots r.buffer r.tail (used r.slots r.head r.tail)

    empty-contents : (r : Ring T) → r.tail ≡ r.head → contents blank r ≡ []
    empty-contents r e =
        ap (window blank r.slots r.buffer r.tail) (used-nil r.slots r.head r.tail e)

    pushed :
        (r : Ring T) (x : T)
        → IsValid r
        → increment r.slots r.head ≢ r.tail
        → window blank r.slots
            (set r.buffer r.head x)
            r.tail
            (used r.slots (increment r.slots r.head) r.tail)
          ≡ contents blank r ++ x ∷ []
    pushed r x v ne =
        let (grows, room, _) = used-push r.slots r.head r.tail v.small v.head_in v.tail_in ne in
        rw grows (
          subst
            (λ i.
              window blank r.slots (set r.buffer i x) r.tail (suc (used r.slots r.head r.tail))
              ≡ contents blank r ++ x ∷ [])
            (slot-used r.slots r.head r.tail v.head_in v.tail_in)
            (window-set blank r.slots r.buffer r.tail (used r.slots r.head r.tail) x v.small
              v.storage v.tail_in (omega arith)))

    popped :
        (r : Ring T)
        → IsValid r
        → r.tail ≢ r.head
        → contents blank r
          ≡ get_or r.buffer r.tail blank
            ∷ window blank r.slots r.buffer
                (increment r.slots r.tail)
                (used r.slots r.head (increment r.slots r.tail))
    popped r v ne =
        ap (window blank r.slots r.buffer r.tail)
          (used-pop r.slots r.head r.tail v.small v.head_in v.tail_in ne).0

    -- On a valid ring, push answers as the bounded queue of the contents of the ring does, and
    -- leaves a ring whose contents are what that queue becomes.
    pub push_refines :
        (r : Ring T) (x : T)
        → IsValid r
        → let (ok, r') = push r x in
          (ok, contents blank r') ≡ enqueue (capacity r) (contents blank r) x
    unfolding push enqueue
    push_refines r x v = elim (Bool-cases (increment r.slots r.head == r.tail)) [
      | inl full ↦ ground (
        arith,
        capacity-slots r v,
        length-contents r,
        used-full r.slots r.head r.tail v.small v.head_in v.tail_in,
      )
      | inr room ↦ ground (
        arith,
        capacity-slots r v,
        length-contents r,
        used-push r.slots r.head r.tail v.small v.head_in v.tail_in,
        pushed r x v,
      )
    ]

    -- On a valid ring, pop answers and yields the item that the queue of the contents of the ring
    -- does, and leaves a ring whose contents are what that queue becomes; an empty ring leaves the
    -- item as it was.
    pub pop_refines :
        (r : Ring T) (item : T)
        → IsValid r
        → let (ok, out, r') = pop r item in
          (ok, out, contents blank r') ≡ dequeue (contents blank r) item
    unfolding pop
    pop_refines r item v = elim (Bool-cases (r.tail == r.head)) [
      | inl nothing ↦ ground (arith, empty-contents r, dequeue-nil item)
      | inr some_item ↦ ground (
        arith,
        popped r v,
        get_or_default r.buffer r.tail item blank,
        dequeue-cons (get_or r.buffer r.tail blank)
            (window blank r.slots r.buffer (increment r.slots r.tail)
              (used r.slots r.head (increment r.slots r.tail)))
            item,
      )
    ]

    -- On a valid ring, empty answers true if and only if the ring has no contents.
    pub is_empty-contents : (r : Ring T) → IsValid r → (is_empty r ≡ true) ↔ (contents blank r ≡ [])
    unfolding is_empty
    is_empty-contents r v = (λ e. empty-contents r (ground arith), λ e. ground (arith, popped r v))
