-- ===== src/SpscRingBuffer/Calls.antt =====
-- The calls that one thread makes of a ring, and of the bounded queue that it stands for.
use latency_lab.Base.{
  ℕ, ◌+◌, ◌<◌, ◌≡◌, refl, ap, ap₂, ◌∙◌, ◌↔◌, Bool, true, false, List, [], ◌∷◌, arith, Bool-cases,
  inl, inr,
}
use latency_lab.SpscRingBuffer.{Ring, size_mod, new, push, pop, is_empty, capacity}
use latency_lab.SpscRingBuffer.Window.{IsValid, contents}
use latency_lab.SpscRingBuffer.Queue.{
  enqueue, dequeue, new-IsValid, push-IsValid, pop-IsValid, push_refines, pop_refines,
  is_empty-contents,
}

module _ {T : Type 0} (r : Ring T) where
  pub capacity-push : (x : T) → capacity (push r x).1 ≡ capacity r
  unfolding push capacity
  capacity-push x = ground arith

  pub capacity-pop : (x : T) → capacity (pop r x).2 ≡ capacity r
  unfolding pop capacity
  capacity-pop x = ground arith

-- `pop(item)` with what `item` holds.
pub data Call (T : Type 0) : Type 0 where
  push_call pop_call : T → Call T
  empty_call : Call T

-- What a call answers, with what `item` holds afterwards.
pub data Answer (T : Type 0) : Type 0 where
  pushed : Bool → Answer T
  popped : Bool → T → Answer T
  emptied : Bool → Answer T

module _ {T : Type 0} where
  unfoldable pub ring_answers : Ring T → List (Call T) → List (Answer T)
  ring_answers r [] = []
  ring_answers r (push_call x ∷ cs) = let (ok, r') = push r x in pushed ok ∷ ring_answers r' cs
  ring_answers r (pop_call item ∷ cs) =
      let (ok, out, r') = pop r item in popped ok out ∷ ring_answers r' cs
  ring_answers r (empty_call ∷ cs) = emptied (is_empty r) ∷ ring_answers r cs

  abbrev pub is_nil : List T → Bool
  is_nil [] = true
  is_nil (x ∷ q) = false

  -- The bounded queue's, which knows of no buffer and no indices.
  unfoldable pub queue_answers : ℕ → List T → List (Call T) → List (Answer T)
  queue_answers limit q [] = []
  queue_answers limit q (push_call x ∷ cs) =
      let (ok, q') = enqueue limit q x in pushed ok ∷ queue_answers limit q' cs
  queue_answers limit q (pop_call item ∷ cs) =
      let (ok, out, q') = dequeue q item in popped ok out ∷ queue_answers limit q' cs
  queue_answers limit q (empty_call ∷ cs) = emptied (is_nil q) ∷ queue_answers limit q cs

  is_nil_iff : (b : Bool) (q : List T) → ((b ≡ true) ↔ (q ≡ [])) → b ≡ is_nil q
  is_nil_iff b [] h = h.1 refl
  is_nil_iff b (x ∷ q) h = elim (Bool-cases b) [
    | inl yes_nil ↦ absurd (ground (arith, h.0 yes_nil))
    | inr not_nil ↦ not_nil
  ]

  module _ (blank : T) where
    answers-refine :
        (r : Ring T) (cs : List (Call T))
        → IsValid r
        → ring_answers r cs ≡ queue_answers (capacity r) (contents blank r) cs
    unfolding ring_answers queue_answers
    answers-refine r [] v = refl
    answers-refine r (push_call x ∷ cs) v =
        ap (λ rest. pushed (push r x).0 ∷ rest)
          (answers-refine (push r x).1 cs (push-IsValid r x v)
            ∙ ap (λ limit. queue_answers limit (contents blank (push r x).1) cs)
                (capacity-push r x))
        ∙ ap (λ d. pushed d.0 ∷ queue_answers (capacity r) d.1 cs) (push_refines blank r x v)
    answers-refine r (pop_call item ∷ cs) v =
        ap (λ rest. popped (pop r item).0 (pop r item).1 ∷ rest)
          (answers-refine (pop r item).2 cs (pop-IsValid r item v)
            ∙ ap (λ limit. queue_answers limit (contents blank (pop r item).2) cs)
                (capacity-pop r item))
        ∙ ap (λ d. popped d.0 d.1 ∷ queue_answers (capacity r) d.2 cs) (pop_refines blank r item v)
    answers-refine r (empty_call ∷ cs) v =
        ap₂ (λ b rest. emptied b ∷ rest)
          (is_nil_iff (is_empty r) (contents blank r) (is_empty-contents blank r v))
          (answers-refine r cs v)

    -- On a new ring whose number of slots does not wrap, any sequence of calls of push, pop and
    -- empty by one thread is answered as the bounded queue answers it: each push and pop with its
    -- result, each pop with what the item holds afterwards, which is unchanged where the ring is
    -- empty.
    pub ring_answers_lem :
        (limit : ℕ) (cs : List (Call T))
        → limit + 1 < size_mod
        → ring_answers (new limit blank) cs ≡ queue_answers limit [] cs
    ring_answers_lem limit cs fits =
        let (valid, nothing, size) = new-IsValid limit blank fits in
        answers-refine (new limit blank) cs valid ∙ ap₂ (λ n q. queue_answers n q cs) size nothing
