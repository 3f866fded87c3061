-- ===== src/UdpFeed/Sound.antt =====
-- Whatever is lost or comes in another order, the consumer handles messages that were sent, none more
-- often than it was sent, and the counters go together.
use latency_lab.Base.{
  ℕ, ◌+◌, ◌^◌, ◌==◌, ◌<◌, ◌≤◌, ◌≡◌, refl, ap, subst, Bool, true, false, inl, inr, ◌⊎◌, List, [],
  ◌∷◌, ◌++◌, length, length-append, All, Option, Option-cases, arith,
}
use latency_lab.Base.Int.{ℤ}
use latency_lab.Message.{MarketMessage}
use latency_lab.Wire.{message_size, encode}
use latency_lab.Wire.RoundTrip.{IsWire, length-encode}
use latency_lab.Feed.{FeedReadings, stamped}
use latency_lab.Feed.Handled.{
  HasHandled, new_feed_worker-HasHandled, handle-HasHandled, handle_bytes-encode, stamped-IsWire,
}
use latency_lab.UdpFeed.{
  Consumer, at_loop, at_recv, at_done, finished, Program, Event, producer, test, receive,
  receive_stray, receive_failed, lose, take_out, produce, arrive, consume, step, run, initial,
}
use latency_lab.UdpFeed.Counts.{
  count_if, count_if-append, count_if-cons, same_count, IsShort, IsTaken, take_out-IsTaken,
  IgnoresTime,
}

module _ {B : Type 0} (on_message : B → MarketMessage → Option B) (messages : List MarketMessage)
    (start : B) (num_messages : ℕ) where
  pub record IsSound (p : Program B) : Type 0 where
    pub handled : List MarketMessage
    pub has : HasHandled on_message start handled p.worker
    pub wire : All IsWire p.in_flight
    pub wire_to_send : All IsWire p.to_send
    pub counts :
        (f : MarketMessage → Bool)
        → IgnoresTime f
        → count_if f handled + count_if f p.in_flight + count_if f p.to_send ≤ count_if f messages
    pub balance : length handled + length p.in_flight ≤ p.produced
    pub few : p.produced + length p.to_send ≤ length messages
    pub done : (p.producer_done ≡ false) ⊎ (p.to_send ≡ [])

  produce-IsSound :
      (todo : List MarketMessage) (time : ℕ) (cpu : ℤ) (taken : Bool) (p : Program B)
      → length messages < 2 ^ 64
      → p.to_send ≡ todo
      → IsSound p
      → IsSound (produce todo time cpu taken p)
  unfolding produce
  produce-IsSound [] time cpu taken p h e v = record {
    handled = v.handled;
    has = v.has;
    wire = v.wire;
    wire_to_send = v.wire_to_send;
    counts = v.counts;
    balance = v.balance;
    few = v.few;
    done = inr e;
  }
  produce-IsSound (m ∷ rest) time cpu true p h e v =
      let wire' = subst (All IsWire) e v.wire_to_send in
      record {
        handled = v.handled;
        has = v.has;
        wire = (stamped-IsWire m time wire'.0, v.wire);
        wire_to_send = wire'.1;
        counts = (λ f ignores. omega (
          arith,
          v.counts f ignores,
          ap (count_if f) e,
          count_if-cons f m rest,
          count_if-cons f (stamped m time) p.in_flight,
          same_count f m (stamped m time) (ignores m time),
        ));
        balance = omega (arith, v.balance, v.few, h, ap length e);
        few = omega (arith, v.few, h, ap length e);
        done = ground (arith, v.done, e);
      }
  produce-IsSound (m ∷ rest) time cpu false p h e v = record {
    handled = v.handled;
    has = v.has;
    wire = v.wire;
    wire_to_send = (subst (All IsWire) e v.wire_to_send).1;
    counts =
        (λ f ignores. omega (arith, v.counts f ignores, ap (count_if f) e, count_if-cons f m rest));
    balance = v.balance;
    few = omega (arith, v.few, ap length e);
    done = ground (arith, v.done, e);
  }

  -- A change of where the consumer stands.
  moved : (c : Consumer) (p : Program B) → IsSound p → IsSound (record p { consumer = c })
  moved c p v = record {
    handled = v.handled;
    has = v.has;
    wire = v.wire;
    wire_to_send = v.wire_to_send;
    counts = v.counts;
    balance = v.balance;
    few = v.few;
    done = v.done;
  }

  arrive-IsSound :
      (m : MarketMessage) (rest : List MarketMessage) (readings : FeedReadings) (p : Program B)
      → IsTaken p.in_flight (m, rest)
      → IsSound p
      → IsSound (arrive on_message (encode m) readings (record p { in_flight = rest }))
  unfolding arrive
  arrive-IsSound m rest readings p (len, counts, wire) v =
      let size : (length (encode m) == message_size) ≡ true =
        ground (arith, length-encode m (wire v.wire).0) in
      rw (size, handle_bytes-encode on_message start p.worker m readings (wire v.wire).0, arrive)
        (record {
          handled = v.handled ++ m ∷ [];
          has = handle-HasHandled on_message start v.handled p.worker m readings v.has;
          wire = (wire v.wire).1;
          wire_to_send = v.wire_to_send;
          counts = (λ f ignores.
              omega (arith, v.counts f ignores, counts f, count_if-append f v.handled m));
          balance = omega (arith, v.balance, len, length-append v.handled (m ∷ []));
          few = v.few;
          done = v.done;
        })

  consume-IsSound :
      (c : Consumer) (e : Event) (p : Program B)
      → IsShort e
      → IsSound p
      → IsSound (consume on_message num_messages c e p)
  unfolding consume arrive
  consume-IsSound at_loop (producer time cpu taken) p short v = v
  consume-IsSound at_loop test p short v = moved _ p v
  consume-IsSound at_loop (receive place readings) p short v = v
  consume-IsSound at_loop (receive_stray bytes readings) p short v = v
  consume-IsSound at_loop receive_failed p short v = v
  consume-IsSound at_loop (lose place) p short v = v
  consume-IsSound at_recv (producer time cpu taken) p short v = v
  consume-IsSound at_recv test p short v = v
  consume-IsSound at_recv (receive place readings) p short v =
      elim (Option-cases (take_out place p.in_flight)) [
        | inl nothing ↦ rw (nothing, consume) v
        | inr ((m, rest), e) ↦
            rw (e, consume)
              (arrive-IsSound m rest readings p (take_out-IsTaken place p.in_flight (m, rest) e) v)
      ]
  consume-IsSound at_recv (receive_stray bytes readings) p short v =
      let other : (length bytes == message_size) ≡ false = ground (arith, short) in
      rw (other, consume, arrive) (moved at_loop p v)
  consume-IsSound at_recv receive_failed p short v = moved at_done p v
  consume-IsSound at_recv (lose place) p short v = v
  consume-IsSound at_done (producer time cpu taken) p short v = v
  consume-IsSound at_done test p short v = moved _ p v
  consume-IsSound at_done (receive place readings) p short v = v
  consume-IsSound at_done (receive_stray bytes readings) p short v = v
  consume-IsSound at_done receive_failed p short v = v
  consume-IsSound at_done (lose place) p short v = v
  consume-IsSound finished (producer time cpu taken) p short v = v
  consume-IsSound finished test p short v = v
  consume-IsSound finished (receive place readings) p short v = v
  consume-IsSound finished (receive_stray bytes readings) p short v = v
  consume-IsSound finished receive_failed p short v = v
  consume-IsSound finished (lose place) p short v = v

  pub step-IsSound :
      (p : Program B) (e : Event)
      → length messages < 2 ^ 64
      → IsShort e
      → IsSound p
      → IsSound (step on_message num_messages p e)
  unfolding step
  step-IsSound p (producer time cpu taken) h short v =
      produce-IsSound p.to_send time cpu taken p h refl v
  step-IsSound p (lose place) h short v = elim (Option-cases (take_out place p.in_flight)) [
    | inl nothing ↦ rw (nothing, step) v
    | inr ((m, rest), e) ↦
        let (len, counts, wire) = take_out-IsTaken place p.in_flight (m, rest) e in
        rw (e, step)
          (record {
            handled = v.handled;
            has = v.has;
            wire = (wire v.wire).1;
            wire_to_send = v.wire_to_send;
            counts = (λ f ignores. omega (arith, v.counts f ignores, counts f));
            balance = omega (arith, v.balance, len);
            few = v.few;
            done = v.done;
          })
  ]
  step-IsSound p test h short v = consume-IsSound p.consumer test p short v
  step-IsSound p (receive place readings) h short v =
      consume-IsSound p.consumer (receive place readings) p short v
  step-IsSound p (receive_stray bytes readings) h short v =
      consume-IsSound p.consumer (receive_stray bytes readings) p short v
  step-IsSound p receive_failed h short v = consume-IsSound p.consumer receive_failed p short v

  pub run-IsSound :
      (p : Program B) (es : List Event)
      → length messages < 2 ^ 64
      → All IsShort es
      → IsSound p
      → IsSound (run on_message num_messages p es)
  unfolding run
  run-IsSound p [] h short v = v
  run-IsSound p (e ∷ es) h short v =
      run-IsSound (step on_message num_messages p e) es h short.1 (step-IsSound p e h short.0 v)

  module _ (producer_cpu consumer_cpu : ℤ) where
    abbrev pub after : List Event → Program B
    after es = run on_message num_messages (initial messages start producer_cpu consumer_cpu) es

    pub initial-IsSound :
        All IsWire messages → IsSound (initial messages start producer_cpu consumer_cpu)
    unfolding initial count_if
    initial-IsSound wire = record {
      handled = [];
      has = new_feed_worker-HasHandled on_message start consumer_cpu;
      wire = tt;
      wire_to_send = wire;
      counts = (λ f ignores. omega arith);
      balance = omega arith;
      few = omega arith;
      done = inl refl;
    }

    -- Whatever is sent, lost, delayed or delivered in another order, for fewer than 2^64 messages
    -- of the source and where every datagram of another sender is shorter than 64 bytes: the
    -- consumer has handled some messages, whose book, counter and samples it has; none has been
    -- handled more often than it stands among the messages, up to its time; the counter of the
    -- consumer is at most that of the producer, so that the difference which the program prints
    -- does not wrap, and that is at most the number of messages.
    pub after_udp_feed :
        (es : List Event)
        → length messages < 2 ^ 64
        → All IsWire messages
        → All IsShort es
        → (handled : List MarketMessage) × HasHandled on_message start handled (after es).worker
          × ((f : MarketMessage → Bool) → IgnoresTime f → count_if f handled ≤ count_if f messages)
          × ((after es).worker.consumed ≡ length handled)
          × ((after es).worker.consumed ≤ (after es).produced)
          × ((after es).produced ≤ length messages)
    after_udp_feed es h wire short =
        let v =
          run-IsSound (initial messages start producer_cpu consumer_cpu) es h short
            (initial-IsSound wire) in
        let consumed : (after es).worker.consumed ≡ length v.handled =
          omega (arith, v.has.consumed, v.balance, v.few, h) in
        (
          v.handled,
          v.has,
          (λ f ignores. omega (arith, v.counts f ignores)),
          consumed,
          omega (arith, consumed, v.balance),
          omega (arith, v.few),
        )
