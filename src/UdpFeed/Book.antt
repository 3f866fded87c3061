-- ===== src/UdpFeed/Book.antt =====
-- The book of a UDP feed of generated messages is defined, whatever is lost.
use latency_lab.Base.{
  ℕ, ◌+◌, ◌^◌, ◌<◌, ◌≤◌, ◌≡◌, refl, ◌∙◌, Bool, not, ◌||◌, ltb, Bool-cases, inl, inr, List, [], ◌∷◌,
  All, length, some, arith,
}
use latency_lab.Base.Int.{ℤ}
use latency_lab.Message.{MarketMessage}
use latency_lab.OrderBook
use latency_lab.OrderBook.{OrderBook}
use latency_lab.OrderBook.Represents.{Represents}
use latency_lab.OrderBook.Refinement.{process-defined, new-Represents}
use latency_lab.Resting.{apply_all}
use latency_lab.Generator.Ranges.{generated, length-generated, generated-IsTypical, IsTypical}
use latency_lab.Generator.Safe.{typical-IsWord, StaySmall-of-typical}
use latency_lab.Worker.{sub64}
use latency_lab.Worker.Fold.{fold-process}
use latency_lab.Feed.Generated.{generated-IsWire}
use latency_lab.UdpFeed.{Event, initial}
use latency_lab.UdpFeed.Counts.{count_if, IsShort, IgnoresTime}
use latency_lab.UdpFeed.Sound.{initial-IsSound, after, after_udp_feed}
use latency_lab.UdpFeed.Received.{received, received-HasHandled}
use latency_lab.Feed.Handled.{new_feed_worker-HasHandled}

abbrev untypical : MarketMessage → Bool
untypical m = ltb m.order_id 1000 || not (ltb m.order_id 11000) || not (ltb m.quantity 10100)

typical_count : (ms : List MarketMessage) → All IsTypical ms → count_if untypical ms ≡ 0
unfolding count_if
typical_count [] v = refl
typical_count (m ∷ ms) v = ground (arith, v.0, typical_count ms v.1)

count_if-IsTypical : (ms : List MarketMessage) → count_if untypical ms ≡ 0 → All IsTypical ms
unfolding count_if
count_if-IsTypical [] h = tt
count_if-IsTypical (m ∷ ms) h = elim (Bool-cases (untypical m)) [
  | inl bad ↦ absurd (ground (arith, h, bad))
  | inr good ↦ (ground (arith, good), count_if-IsTypical ms (ground (arith, h, good)))
]

-- With a clock of 64-bit words, fewer than 2^64 generated messages, and where every datagram of
-- another sender is shorter than 64 bytes: whatever is sent, lost, delayed or delivered in another
-- order, the book is defined and represents the orders that the messages make which recv has
-- brought, in the order in which it has brought them; the counter of the consumer is the number of
-- these; none of them has come more often than it stands among the generated messages, up to its
-- time; and the number of lost messages that the program prints is that of the producer less that
-- of the consumer.
pub udp_feed-Represents :
    (clock : ℕ → ℕ) (num_messages : ℕ) (symbol : List ℕ) (producer_cpu consumer_cpu : ℤ)
    (es : List Event)
    → num_messages < 2 ^ 64
    → ((k : ℕ) → clock k < 2 ^ 64)
    → All IsShort es
    → let messages = generated clock num_messages symbol in
      let q =
        after OrderBook.on_message messages OrderBook.new num_messages producer_cpu consumer_cpu
          es in
      let brought =
        received OrderBook.on_message num_messages
          (initial messages OrderBook.new producer_cpu consumer_cpu)
          es in
      (b : OrderBook) × (q.worker.book ≡ some b)
      × Represents b (apply_all brought [])
      × (q.worker.consumed ≡ length brought)
      × ((f : MarketMessage → Bool) → IgnoresTime f → count_if f brought ≤ count_if f messages)
      × (sub64 q.produced q.worker.consumed + q.worker.consumed ≡ q.produced)
unfolding sub64 initial count_if
udp_feed-Represents clock n symbol producer_cpu consumer_cpu es few words short =
    let msgs = generated clock n symbol in
    let size = length-generated clock n symbol in
    let few' : length msgs < 2 ^ 64 = omega (arith, few, size) in
    let wire = generated-IsWire clock n symbol words in
    let p = initial msgs OrderBook.new producer_cpu consumer_cpu in
    let brought = received OrderBook.on_message n p es in
    let (has, counts) =
      received-HasHandled OrderBook.on_message msgs OrderBook.new n p es [] few' short
        (initial-IsSound OrderBook.on_message msgs OrderBook.new n producer_cpu consumer_cpu wire)
        (new_feed_worker-HasHandled OrderBook.on_message OrderBook.new consumer_cpu) in
    let (_, has', _, consumed, balance, sent) =
      after_udp_feed OrderBook.on_message msgs OrderBook.new n producer_cpu consumer_cpu es few'
        wire short in
    let no_more : (f : MarketMessage → Bool)
        → IgnoresTime f
        → count_if f brought ≤ count_if f msgs =
      λ f ignores. omega (arith, counts f ignores) in
    let typical = count_if-IsTypical brought (
      omega (
        arith,
        no_more untypical (λ m time. refl),
        typical_count msgs (generated-IsTypical clock n symbol),
      )) in
    let (b, runs, holds) =
      process-defined OrderBook.new [] brought new-Represents (typical-IsWord brought typical)
        (StaySmall-of-typical [] brought (tt, tt) typical) in
    (
      b,
      has.book ∙ fold-process OrderBook.new brought ∙ runs,
      holds,
      omega (arith, consumed, has.arrivals, has'.arrivals),
      no_more,
      omega (arith, balance, sent, size, few),
    )
