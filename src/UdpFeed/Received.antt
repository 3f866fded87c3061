-- ===== src/UdpFeed/Received.antt =====
-- The messages that recv brings, in the order in which it brings them, and that the consumer handles just these.
use latency_lab.Base.{
  ℕ, ◌+◌, ◌^◌, ◌==◌, ◌<◌, ◌≤◌, ◌≡◌, refl, sym, ap, subst, Bool, true, false, inl, inr, List, [],
  ◌∷◌, ◌++◌, length, All, Option, if◌then◌else◌, ltb, none, some, Option-cases, arith,
}
use mathlib.Core.List.{append_assoc, append-nil}
use latency_lab.Base.Int.{ℤ}
use latency_lab.Message.{MarketMessage}
use latency_lab.Wire.{message_size, encode}
use latency_lab.Wire.RoundTrip.{IsWire, length-encode}
use latency_lab.Feed.{FeedWorker, stamped}
use latency_lab.Feed.Handled.{HasHandled, handle-HasHandled, handle_bytes-encode}
use latency_lab.UdpFeed.{
  Consumer, at_loop, at_recv, at_done, finished, Program, Event, producer, test, receive,
  receive_stray, receive_failed, lose, take_out, produce, arrive, consume, step, run,
}
use latency_lab.UdpFeed.Counts.{
  count_if, count_if-cons, same_count, IsShort, take_out-IsTaken, IgnoresTime,
}
use latency_lab.UdpFeed.Sound.{IsSound, step-IsSound}

-- The message that an event brings to a consumer at recv, if it brings one.
unfoldable pub received_by : Event → Consumer → List MarketMessage → List MarketMessage
received_by (receive place readings) at_recv in_flight = elim (take_out place in_flight) [
  | none ↦ []
  | some r ↦ r.0 ∷ []
]
received_by e _ in_flight = []

module _ {B : Type 0} (on_message : B → MarketMessage → Option B) (num_messages : ℕ) where
  -- What recv brings in the course of a schedule, whatever is done with it.
  unfoldable pub received : Program B → List Event → List MarketMessage
  received p [] = []
  received p (e ∷ es) =
      received_by e p.consumer p.in_flight ++ received (step on_message num_messages p e) es

count_if-append_list :
    (f : MarketMessage → Bool) (xs ys : List MarketMessage)
    → count_if f (xs ++ ys) ≡ count_if f xs + count_if f ys
unfolding count_if
count_if-append_list f [] ys = omega arith
count_if-append_list f (x ∷ xs) ys = ground (arith, count_if-append_list f xs ys)

module _ {B : Type 0} (on_message : B → MarketMessage → Option B) (start : B) where
  -- A step that brings `new` has handled it behind `passed`, and lets nothing come twice.
  abbrev Brings : List MarketMessage → List MarketMessage → Program B → Program B → Type 0
  Brings passed new p p' =
      HasHandled on_message start (passed ++ new) p'.worker
      × ((f : MarketMessage → Bool)
          → IgnoresTime f
          → count_if f new + count_if f p'.in_flight + count_if f p'.to_send
            ≤ count_if f p.in_flight + count_if f p.to_send)

  nothing_new :
      (passed : List MarketMessage) (w : FeedWorker B)
      → HasHandled on_message start passed w
      → HasHandled on_message start (passed ++ []) w
  nothing_new passed w v =
      subst (λ xs. HasHandled on_message start xs w) (sym (append-nil passed)) v

  -- A step of the consumer that brings nothing and leaves the datagrams.
  idle :
      (passed : List MarketMessage) (c : Consumer) (p : Program B)
      → HasHandled on_message start passed p.worker
      → Brings passed [] p (record p { consumer = c })
  unfolding count_if
  idle passed c p v = (nothing_new passed p.worker v, (λ f ignores. omega arith))

  same :
      (passed : List MarketMessage) (p : Program B)
      → HasHandled on_message start passed p.worker
      → Brings passed [] p p
  unfolding count_if
  same passed p v = (nothing_new passed p.worker v, (λ f ignores. omega arith))

  produce-Brings :
      (todo : List MarketMessage) (time : ℕ) (cpu : ℤ) (taken : Bool) (passed : List MarketMessage)
      (p : Program B)
      → p.to_send ≡ todo
      → HasHandled on_message start passed p.worker
      → Brings passed [] p (produce todo time cpu taken p)
  unfolding produce count_if
  produce-Brings [] time cpu taken passed p e v =
      (nothing_new passed p.worker v, (λ f ignores. omega arith))
  produce-Brings (m ∷ rest) time cpu true passed p e v = (
    nothing_new passed p.worker v,
    (λ f ignores. omega (
      arith,
      ap (count_if f) e,
      count_if-cons f m rest,
      count_if-cons f (stamped m time) p.in_flight,
      same_count f m (stamped m time) (ignores m time),
    )),
  )
  produce-Brings (m ∷ rest) time cpu false passed p e v = (
    nothing_new passed p.worker v,
    (λ f ignores. omega (arith, ap (count_if f) e, count_if-cons f m rest)),
  )

  consume-Brings :
      (num_messages : ℕ) (c : Consumer) (e : Event) (passed : List MarketMessage) (p : Program B)
      → IsShort e
      → All IsWire p.in_flight
      → HasHandled on_message start passed p.worker
      → Brings passed (received_by e c p.in_flight) p (consume on_message num_messages c e p)
  unfolding consume arrive received_by
  consume-Brings n at_loop (producer time cpu taken) passed p short wire v = same passed p v
  consume-Brings n at_loop test passed p short wire v =
      idle passed (if ltb p.worker.consumed n then at_recv else finished) p v
  consume-Brings n at_loop (receive place readings) passed p short wire v = same passed p v
  consume-Brings n at_loop (receive_stray bytes readings) passed p short wire v = same passed p v
  consume-Brings n at_loop receive_failed passed p short wire v = same passed p v
  consume-Brings n at_loop (lose place) passed p short wire v = same passed p v
  consume-Brings n at_recv (producer time cpu taken) passed p short wire v = same passed p v
  consume-Brings n at_recv test passed p short wire v = same passed p v
  consume-Brings n at_recv (receive place readings) passed p short wire v =
      elim (Option-cases (take_out place p.in_flight)) [
        | inl nothing ↦ rw (nothing, consume, received_by) (same passed p v)
        | inr ((m, rest), e) ↦
            let (len, counts, wires) = take_out-IsTaken place p.in_flight (m, rest) e in
            let wire_m = (wires wire).0 in
            let size : (length (encode m) == message_size) ≡ true =
              ground (arith, length-encode m wire_m) in
            rw
              (
                e,
                size,
                handle_bytes-encode on_message start p.worker m readings wire_m,
                consume,
                arrive,
                received_by,
              )
              (
                handle-HasHandled on_message start passed p.worker m readings v,
                (λ f ignores. omega (arith, counts f)),
              )
      ]
  consume-Brings n at_recv (receive_stray bytes readings) passed p short wire v =
      let other : (length bytes == message_size) ≡ false = ground (arith, short) in
      rw (other, consume, arrive) (idle passed at_loop p v)
  consume-Brings n at_recv receive_failed passed p short wire v = idle passed at_done p v
  consume-Brings n at_recv (lose place) passed p short wire v = same passed p v
  consume-Brings n at_done (producer time cpu taken) passed p short wire v = same passed p v
  consume-Brings n at_done test passed p short wire v =
      idle passed (if p.producer_done then finished else at_loop) p v
  consume-Brings n at_done (receive place readings) passed p short wire v = same passed p v
  consume-Brings n at_done (receive_stray bytes readings) passed p short wire v = same passed p v
  consume-Brings n at_done receive_failed passed p short wire v = same passed p v
  consume-Brings n at_done (lose place) passed p short wire v = same passed p v
  consume-Brings n finished (producer time cpu taken) passed p short wire v = same passed p v
  consume-Brings n finished test passed p short wire v = same passed p v
  consume-Brings n finished (receive place readings) passed p short wire v = same passed p v
  consume-Brings n finished (receive_stray bytes readings) passed p short wire v = same passed p v
  consume-Brings n finished receive_failed passed p short wire v = same passed p v
  consume-Brings n finished (lose place) passed p short wire v = same passed p v

  step-Brings :
      (num_messages : ℕ) (e : Event) (passed : List MarketMessage) (p : Program B)
      → IsShort e
      → All IsWire p.in_flight
      → HasHandled on_message start passed p.worker
      → Brings passed (received_by e p.consumer p.in_flight) p (step on_message num_messages p e)
  unfolding step received_by count_if
  step-Brings n (producer time cpu taken) passed p short wire v =
      produce-Brings p.to_send time cpu taken passed p refl v
  step-Brings n (lose place) passed p short wire v =
      elim (Option-cases (take_out place p.in_flight)) [
        | inl nothing ↦ rw (nothing, step) (same passed p v)
        | inr ((m, rest), e) ↦
            let (len, counts, wires) = take_out-IsTaken place p.in_flight (m, rest) e in
            rw (e, step) (nothing_new passed p.worker v, (λ f ignores. omega (arith, counts f)))
      ]
  step-Brings n test passed p short wire v = consume-Brings n p.consumer test passed p short wire v
  step-Brings n (receive place readings) passed p short wire v =
      consume-Brings n p.consumer (receive place readings) passed p short wire v
  step-Brings n (receive_stray bytes readings) passed p short wire v =
      consume-Brings n p.consumer (receive_stray bytes readings) passed p short wire v
  step-Brings n receive_failed passed p short wire v =
      consume-Brings n p.consumer receive_failed passed p short wire v

module _ {B : Type 0} (on_message : B → MarketMessage → Option B) (messages : List MarketMessage)
    (start : B) (num_messages : ℕ) where
  -- The consumer has handled what recv has brought, in that order, and no more of a kind than was to come.
  pub received-HasHandled :
      (p : Program B) (es : List Event) (passed : List MarketMessage)
      → length messages < 2 ^ 64
      → All IsShort es
      → IsSound on_message messages start num_messages p
      → HasHandled on_message start passed p.worker
      → HasHandled on_message start
          (passed ++ received on_message num_messages p es)
          (run on_message num_messages p es).worker
        × ((f : MarketMessage → Bool)
            → IgnoresTime f
            → count_if f (received on_message num_messages p es)
              ≤ count_if f p.in_flight + count_if f p.to_send)
  unfolding run received count_if
  received-HasHandled p [] passed few short v has =
      (nothing_new on_message start passed p.worker has, (λ f ignores. omega arith))
  received-HasHandled p (e ∷ es) passed few short v has =
      let new = received_by e p.consumer p.in_flight in
      let p' = step on_message num_messages p e in
      let (has', counts) =
        step-Brings on_message start num_messages e passed p short.0 v.wire has in
      let (done, counts') =
        received-HasHandled p' es (passed ++ new) few short.1
          (step-IsSound on_message messages start num_messages p e few short.0 v) has' in
      (
        subst (λ xs. HasHandled on_message start xs (run on_message num_messages p' es).worker)
            (append_assoc passed new (received on_message num_messages p' es)) done,
        (λ f ignores. omega (
          arith,
          counts f ignores,
          counts' f ignores,
          count_if-append_list f new (received on_message num_messages p' es),
        )),
      )
