-- ===== src/UdpFeed/Ends.antt =====
-- When the consumer of a UDP feed comes to its end, and when it cannot.
use latency_lab.Base.{
  ℕ, ◌+◌, ◌==◌, ◌<◌, ◌≤◌, ◌≡◌, ◌≢◌, refl, sym, ap, subst, Bool, true, false, ltb, inl, inr, ◌⊎◌,
  Bool-cases, List, [], ◌∷◌, length, Option, Option-cases, All, arith,
}
use latency_lab.Base.Int.{ℤ, pos}
use latency_lab.Message.{MarketMessage}
use latency_lab.Wire.{message_size, encode, decode}
use latency_lab.Feed.{FeedReadings, handle, handle_bytes}
use latency_lab.Endpoints.{quot, rem, times}
use latency_lab.UdpFeed.{
  Consumer, at_loop, at_recv, at_done, finished, Program, Event, producer, test, receive,
  receive_stray, receive_failed, lose, take_out, produce, arrive, consume, step, run, initial,
}
use latency_lab.UdpFeed.Counts.{take_out-IsTaken}

module _ {B : Type 0} (on_message : B → MarketMessage → Option B) (num_messages : ℕ) where
  -- Once the producer is done, two tests of the consumer with a failing recv between them end it, wherever it stands.
  pub udp_feed_ends :
      (p : Program B)
      → p.producer_done ≡ true
      → (run on_message num_messages p (test ∷ receive_failed ∷ test ∷ [])).consumer ≡ finished
  unfolding run step consume
  udp_feed_ends p h = go p.consumer refl
    where
      go :
          (c : Consumer)
          → p.consumer ≡ c
          → (run on_message num_messages p (test ∷ receive_failed ∷ test ∷ [])).consumer ≡ finished
      go at_loop e = elim (Bool-cases (ltb p.worker.consumed num_messages)) [
        | inl more ↦ rw (e, more, h, run, step, consume) refl
        | inr over ↦ rw (e, over, run, step, consume) refl
      ]
      go at_recv e = rw (e, h, run, step, consume) refl
      go at_done e = rw (e, h, run, step, consume) refl
      go finished e = rw (e, run, step, consume) refl

-- What may happen to a socket whose receive timeout is set from `receive_timeout_ms`. SO_RCVTIMEO takes a
-- `timeval` of zero for no timeout, and no signal interrupts recv: it fails only where the `timeval` of
-- create_udp_receiver is not zero. Another sender's datagrams are shorter than a message.
abbrev pub IsPossible : (receive_timeout_ms : ℤ) → Event → Type 0
IsPossible ms receive_failed = (quot ms 1000 ≢ pos 0) ⊎ (times (rem ms 1000) 1000 ≢ pos 0)
IsPossible ms (receive_stray bytes readings) = length bytes < message_size
IsPossible ms _ = Unit

no_timeout : ¬ IsPossible (pos 0) receive_failed
no_timeout (inl h) = h refl
no_timeout (inr h) = h refl

module _ {B : Type 0} (on_message : B → MarketMessage → Option B) (num_messages : ℕ) where
  -- The messages that are handled, on their way, or still to be sent.
  abbrev pub accounted : Program B → ℕ
  accounted p = p.worker.consumed + length p.in_flight + length p.to_send

  -- The consumer has not read `producer_done`, and has left its loop only at the full count.
  abbrev IsCounting : Consumer → ℕ → Type 0
  IsCounting at_done n = ⊥
  IsCounting finished n = num_messages ≤ n
  IsCounting c n = Unit

  -- A step that keeps the consumer counting, and accounts for no more.
  abbrev Keeps : Program B → Program B → Type 0
  Keeps p p' = IsCounting p'.consumer p'.worker.consumed × (accounted p' ≤ accounted p)

  produce-accounted :
      (todo : List MarketMessage) (time : ℕ) (cpu : ℤ) (taken : Bool) (p : Program B)
      → p.to_send ≡ todo
      → ((produce todo time cpu taken p).consumer ≡ p.consumer)
        × ((produce todo time cpu taken p).worker.consumed ≡ p.worker.consumed)
        × (accounted (produce todo time cpu taken p) ≤ accounted p)
  unfolding produce
  produce-accounted [] time cpu taken p e = (refl, refl, omega arith)
  produce-accounted (m ∷ rest) time cpu true p e = (refl, refl, omega (arith, ap length e))
  produce-accounted (m ∷ rest) time cpu false p e = (refl, refl, omega (arith, ap length e))

  -- The round behind a datagram counts one message at most.
  arrive-counts :
      (bytes : List ℕ) (readings : FeedReadings) (p : Program B)
      → ((arrive on_message bytes readings p).consumer ≡ at_loop)
        × (accounted (arrive on_message bytes readings p) ≤ accounted p + 1)
  unfolding arrive handle_bytes handle
  arrive-counts bytes readings p = elim (Bool-cases (length bytes == message_size)) [
    | inr other ↦ rw (other, arrive) (refl, omega arith)
    | inl whole ↦ elim (Option-cases (decode bytes)) [
      | inl nothing ↦ rw (whole, nothing, arrive, handle_bytes) (refl, omega arith)
      | inr (m, e) ↦ rw (whole, e, arrive, handle_bytes) (refl, omega arith)
    ]
  ]

  looping : (c : Consumer) (n : ℕ) → c ≡ at_loop → IsCounting c n
  looping c n e = subst (λ d. IsCounting d n) (sym e) tt

  consume-Keeps :
      (c : Consumer) (e : Event) (p : Program B)
      → IsPossible (pos 0) e
      → p.consumer ≡ c
      → IsCounting c p.worker.consumed
      → Keeps p (consume on_message num_messages c e p)
  unfolding consume arrive
  consume-Keeps at_loop test p h e v = elim (Bool-cases (ltb p.worker.consumed num_messages)) [
    | inl more ↦ rw (more, consume) (tt, omega arith)
    | inr full ↦ rw (full, consume) (ground (arith, full), omega arith)
  ]
  consume-Keeps at_recv (receive place readings) p h e v =
      elim (Option-cases (take_out place p.in_flight)) [
        | inl nothing ↦
            rw (nothing, consume)
              (subst (λ d. IsCounting d p.worker.consumed) (sym e) v, omega arith)
        | inr ((m, rest), e') ↦
            let len = (take_out-IsTaken place p.in_flight (m, rest) e').0 in
            let p' = record p { in_flight = rest } in
            let q = arrive on_message (encode m) readings p' in
            let (back, one) = arrive-counts (encode m) readings p' in
            rw (e', consume) (looping q.consumer q.worker.consumed back, omega (arith, one, len))
      ]
  consume-Keeps at_recv (receive_stray bytes readings) p h e v =
      let other : (length bytes == message_size) ≡ false = ground (arith, h) in
      rw (other, consume, arrive) (tt, omega arith)
  consume-Keeps at_recv receive_failed p h e v = absurd (no_timeout h)
  consume-Keeps at_done event p h e v = absurd v
  consume-Keeps finished (producer time cpu taken) p h e v = (rw e v, omega arith)
  consume-Keeps finished test p h e v = (rw e v, omega arith)
  consume-Keeps finished (receive place readings) p h e v = (rw e v, omega arith)
  consume-Keeps finished (receive_stray bytes readings) p h e v = (rw e v, omega arith)
  consume-Keeps finished receive_failed p h e v = (rw e v, omega arith)
  consume-Keeps finished (lose place) p h e v = (rw e v, omega arith)
  consume-Keeps at_loop (producer time cpu taken) p h e v = (rw e tt, omega arith)
  consume-Keeps at_loop (receive place readings) p h e v = (rw e tt, omega arith)
  consume-Keeps at_loop (receive_stray bytes readings) p h e v = (rw e tt, omega arith)
  consume-Keeps at_loop receive_failed p h e v = (rw e tt, omega arith)
  consume-Keeps at_loop (lose place) p h e v = (rw e tt, omega arith)
  consume-Keeps at_recv (producer time cpu taken) p h e v = (rw e tt, omega arith)
  consume-Keeps at_recv test p h e v = (rw e tt, omega arith)
  consume-Keeps at_recv (lose place) p h e v = (rw e tt, omega arith)

  step-Keeps :
      (e : Event) (p : Program B)
      → IsPossible (pos 0) e
      → IsCounting p.consumer p.worker.consumed
      → Keeps p (step on_message num_messages p e)
  unfolding step
  step-Keeps (producer time cpu taken) p h v =
      let (stays, counted, no_more) = produce-accounted p.to_send time cpu taken p refl in
      (rw (stays, counted) v, no_more)
  step-Keeps (lose place) p h v = elim (Option-cases (take_out place p.in_flight)) [
    | inl nothing ↦ rw (nothing, step) (v, omega arith)
    | inr ((m, rest), e) ↦
        let len = (take_out-IsTaken place p.in_flight (m, rest) e).0 in
        rw (e, step) (v, omega (arith, len))
  ]
  step-Keeps test p h v = consume-Keeps p.consumer test p h refl v
  step-Keeps (receive place readings) p h v =
      consume-Keeps p.consumer (receive place readings) p h refl v
  step-Keeps (receive_stray bytes readings) p h v =
      consume-Keeps p.consumer (receive_stray bytes readings) p h refl v
  step-Keeps receive_failed p h v = consume-Keeps p.consumer receive_failed p h refl v

  run-Keeps :
      (p : Program B) (es : List Event)
      → All (IsPossible (pos 0)) es
      → IsCounting p.consumer p.worker.consumed
      → Keeps p (run on_message num_messages p es)
  unfolding run
  run-Keeps p [] h v = (v, omega arith)
  run-Keeps p (e ∷ es) h v =
      let (v', less) = step-Keeps e p h.0 v in
      let (v'', less') = run-Keeps (step on_message num_messages p e) es h.1 v' in
      (v'', omega (arith, less, less'))

  not_over :
      (p : Program B)
      → IsCounting p.consumer p.worker.consumed
      → accounted p < num_messages
      → p.consumer ≢ finished
  not_over p v lost over =
      let full : num_messages ≤ p.worker.consumed =
        subst (λ c. IsCounting c p.worker.consumed) over v in
      omega (arith, full, lost)

  -- With a receive timeout of 0 ms, whose timeval is zero, so that recv waits and does not fail,
  -- and where every datagram of another sender is shorter than 64 bytes: once the messages that are
  -- handled, on their way and still to be sent are fewer than the consumer was asked for, it never
  -- comes to the end of its loop, whatever happens later.
  pub lost_never_finishes :
      (messages : List MarketMessage) (start : B) (producer_cpu consumer_cpu : ℤ)
      (es es' : List Event)
      → All (IsPossible (pos 0)) es
      → All (IsPossible (pos 0)) es'
      → accounted
          (run on_message num_messages (initial messages start producer_cpu consumer_cpu) es)
        < num_messages
      → let p = run on_message num_messages (initial messages start producer_cpu consumer_cpu) es in
        (run on_message num_messages p es').consumer ≢ finished
  unfolding initial
  lost_never_finishes messages start producer_cpu consumer_cpu es es' h h' lost =
      let p₀ = initial messages start producer_cpu consumer_cpu in
      let p = run on_message num_messages p₀ es in
      let (v, _) = run-Keeps p₀ es h tt in
      let (v', less) = run-Keeps p es' h' v in
      not_over (run on_message num_messages p es') v' (omega (arith, less, lost))
