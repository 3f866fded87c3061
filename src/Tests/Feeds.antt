-- ===== src/Tests/Feeds.antt =====
-- A message on the wire, a TCP feed on a planned connection, and a UDP feed with losses.
use latency_lab.Base.{
  ℕ, ◌+◌, ◌^◌, ◌<◌, ◌≤◌, ◌≡◌, ◌≢◌, refl, ap, ◌⊎◌, Bool, true, false, List, [], ◌∷◌, take, length,
  Option, none, some, arith, All,
}
use latency_lab.Base.Int.{pos, negsuc}
use latency_lab.Message.{MarketMessage, sell, trade}
use latency_lab.OrderBook
use latency_lab.OrderBook.{OrderBook}
use latency_lab.OrderBook.Represents.{Represents}
use latency_lab.Resting.{apply_all}
use latency_lab.Generator.Ranges.{generated, length-generated}
use latency_lab.Sockets.{recv_all}
use latency_lab.Wire.{encode, decode, message_size}
use latency_lab.Wire.RoundTrip.{decode-encode}
use latency_lab.Feed.{FeedReadings, new_feed_worker}
use latency_lab.Feed.Handled.{HasHandled}
use latency_lab.Feed.Generated.{generated-IsWire}
use latency_lab.TcpFeed.{Sender, Receiver}
use latency_lab.TcpFeed
use latency_lab.TcpFeed.Whole
use latency_lab.TcpFeed.Whole.{tcp_feed_lem}
use latency_lab.UdpFeed.{
  Event, Program, producer, test, receive, receive_stray, receive_failed, lose, finished, step,
  produce, consume, take_out, run, initial,
}
use latency_lab.UdpFeed.Counts.{count_if, IgnoresTime, IsShort}
use latency_lab.UdpFeed.Sound.{after, after_udp_feed}
use latency_lab.UdpFeed.Ends.{lost_never_finishes}
use latency_lab.Tests.Connection.{Planned, planned}
use latency_lab.Tests.Benchmarks.{clock, aapl}

abbrev on_wire : MarketMessage
on_wire = record {
  sequence_number = 258;
  exchange_timestamp_ns = 77;
  order_id = 1000;
  price = negsuc 4;
  quantity = 300;
  side = sell;
  type = trade;
  symbol = 65 ∷ 65 ∷ 80 ∷ 76 ∷ 32 ∷ 32 ∷ 32 ∷ 32 ∷ [];
}

decode-encode_example :
    (decode (encode on_wire) ≡ some on_wire) × (length (encode on_wire) ≡ message_size)
decode-encode_example = decode-encode on_wire (record {
  sequence_number = omega arith;
  exchange_timestamp_ns = omega arith;
  order_id = omega arith;
  price_above = omega arith;
  price_below = omega arith;
  quantity = omega arith;
  symbol = refl;
})

abbrev sender_end : Planned
sender_end = record { out = []; coming = []; plan = 2 ∷ 0 ∷ 70 ∷ [] }

abbrev pub readings : ℕ → FeedReadings
readings i = record {
  before_book = 100 + i;
  book_start = 101 + i;
  book_end = 103 + i;
  current_cpu = pos 1;
}

abbrev out_of : Option (Sender Planned) → List ℕ
out_of none = []
out_of (some w) = w.connection.out

-- What the producer's end has accepted is what the consumer's end is to receive.
abbrev receiver_end : Planned
receiver_end = record {
  out = [];
  coming = out_of (
      TcpFeed.producer planned (λ k. 50 + k) (λ k. pos 0) (generated clock 3 aapl) (pos 0)
        sender_end);
  plan = 1 ∷ 0 ∷ 100 ∷ [];
}

tcp_feed_lem_example :
    let sent = Whole.sent planned planned clock (λ k. 50 + k) (λ k. pos 0) readings 3 aapl in
    (w : Sender Planned) × (v : Receiver OrderBook Planned) × (TcpFeed.producer planned
        (λ k. 50 + k)
        (λ k. pos 0)
        (generated clock 3 aapl)
        (pos 0)
        sender_end
      ≡ some w)
    × (TcpFeed.consumer planned OrderBook.on_message readings 3 OrderBook.new (pos 1) receiver_end
        ≡ some v)
    × ((k : ℕ) × (k ≤ 3)
        × HasHandled OrderBook.on_message OrderBook.new (take k sent) v.worker
        × ((k ≡ 3)
            ⊎ ((r' : Planned) × (buffer : List ℕ) × (recv_all planned r' message_size
                  ≡ some (false, buffer, v.connection))))
        × (k ≡ 3 → (b : OrderBook) × (v.worker.book ≡ some b) × Represents b (apply_all sent [])))
tcp_feed_lem_example =
    tcp_feed_lem planned planned clock (λ k. 50 + k) (λ k. pos 0) readings 3 aapl (pos 0) (pos 1)
      sender_end receiver_end (omega arith) (λ k. omega arith) refl (λ w runs. ap out_of runs)

-- The first datagram is overtaken by the second, the third is lost, and another sender's is short.
abbrev pub datagrams : List Event
datagrams =
    test
    ∷ producer 1 (pos 0) true
    ∷ producer 2 (pos 0) true
    ∷ receive 0 (readings 3)
    ∷ test
    ∷ receive_stray (1 ∷ 2 ∷ []) (readings 4)
    ∷ test
    ∷ receive 0 (readings 5)
    ∷ producer 6 (pos 1) true
    ∷ lose 0
    ∷ producer 7 (pos 1) true
    ∷ test
    ∷ receive_failed
    ∷ test
    ∷ []

pub datagrams-IsShort : All IsShort datagrams
datagrams-IsShort =
    (tt, (tt, (tt, (tt, (tt, (omega arith, (tt, (tt, (tt, (tt, (tt, (tt, (tt, (tt, tt))))))))))))))

few : length (generated clock 3 aapl) < 2 ^ 64
few = omega (arith, length-generated clock 3 aapl)

after_udp_feed_example :
    let p =
      after OrderBook.on_message
        (generated clock 3 aapl)
        OrderBook.new
        3
        (pos 0)
        (pos 1)
        datagrams in
    (handled : List MarketMessage) × HasHandled OrderBook.on_message OrderBook.new handled p.worker
    × ((f : MarketMessage → Bool)
        → IgnoresTime f
        → count_if f handled ≤ count_if f (generated clock 3 aapl))
    × (p.worker.consumed ≡ length handled)
    × (p.worker.consumed ≤ p.produced)
    × (p.produced ≤ length (generated clock 3 aapl))
after_udp_feed_example =
    after_udp_feed OrderBook.on_message (generated clock 3 aapl) OrderBook.new 3 (pos 0) (pos 1)
      datagrams few (generated-IsWire clock 3 aapl (λ k. omega arith)) datagrams-IsShort

-- The only message is lost while the consumer waits for it.
abbrev deserted : Program OrderBook
deserted =
    run OrderBook.on_message 1 (initial (on_wire ∷ []) OrderBook.new (pos 0) (pos 1))
      (test ∷ producer 1 (pos 0) true ∷ lose 0 ∷ [])

lost_never_finishes_example :
    (run OrderBook.on_message 1 deserted
      (producer 2 (pos 0) true ∷ test ∷ receive 0 (readings 3) ∷ [])).consumer
    ≢ finished
unfolding run step produce consume take_out initial new_feed_worker
lost_never_finishes_example =
    lost_never_finishes OrderBook.on_message 1 (on_wire ∷ []) OrderBook.new (pos 0) (pos 1)
      (test ∷ producer 1 (pos 0) true ∷ lose 0 ∷ [])
      (producer 2 (pos 0) true ∷ test ∷ receive 0 (readings 3) ∷ []) (tt, (tt, (tt, tt)))
      (tt, (tt, (tt, tt))) (omega arith)
