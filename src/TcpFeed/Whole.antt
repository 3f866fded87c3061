-- ===== src/TcpFeed/Whole.antt =====
-- `main` of apps/benchmark_tcp_feed.cpp: the generated messages through both ends of a connection into
-- the book.
use latency_lab.Base.{
  ℕ, zero, suc, ◌^◌, ◌<◌, ◌≤◌, ◌≡◌, refl, sym, ◌∙◌, ap, subst, ◌⊎◌, false, List, [], ◌∷◌, ◌++◌, All,
  take, drop, take_front, take-append-drop, take-length, length, some,
}
use mathlib.Core.List.{append_assoc}
use latency_lab.Base.Int.{ℤ}
use latency_lab.Message.{MarketMessage}
use latency_lab.OrderBook
use latency_lab.OrderBook.{OrderBook}
use latency_lab.OrderBook.Represents.{Represents}
use latency_lab.Resting.{apply_all}
use latency_lab.Generator.Ranges.{generated, length-generated}
use latency_lab.Generator.Safe.{generated_feed_defined}
use latency_lab.Sockets.{Connection, recv_all}
use latency_lab.Worker.{stamp}
use latency_lab.Worker.Fold.{fold, fold-process}
use latency_lab.Wire.{message_size}
use latency_lab.Wire.RoundTrip.{IsWire}
use latency_lab.Feed.{FeedReadings, stamp_all}
use latency_lab.Feed.Handled.{HasHandled}
use latency_lab.Feed.Generated.{stamp_all-IsWire, generated-IsWire, stamp_all-generated}
use latency_lab.TcpFeed.{Sender, Receiver, producer, consumer}
use latency_lab.TcpFeed.Stream.{stream}
use latency_lab.TcpFeed.Producer.{producer_lem}
use latency_lab.TcpFeed.Consumer.{consumer_lem}

All-take : (k : ℕ) (ms : List MarketMessage) → All IsWire ms → All IsWire (take k ms)
All-take zero ms v = tt
All-take (suc k) [] v = tt
All-take (suc k) (m ∷ ms) v = (v.0, All-take k ms v.1)

front_of_take :
    (k : ℕ) (ms front rest : List MarketMessage)
    → take k ms ≡ front ++ rest
    → front ≡ take (length front) ms
front_of_take k ms front rest e = sym (
    ap (take (length front)) (
      sym (take-append-drop k ms)
      ∙ ap (λ xs. xs ++ drop k ms) e
      ∙ append_assoc front rest (drop k ms))
    ∙ take_front (length front) front (rest ++ drop k ms) refl)

module _ {S R : Type 0} (c : Connection S) (d : Connection R) (clock times : ℕ → ℕ) (cpus : ℕ → ℤ)
    (readings : ℕ → FeedReadings) (num_messages : ℕ) (symbol : List ℕ) where
  -- The messages as the producer sends them.
  abbrev pub sent : List MarketMessage
  sent = generated (λ k. stamp (times k)) num_messages symbol

  -- On two ends of a connection that follow the laws of Sockets.Connection, where the receiving end
  -- gets the bytes that the sending end has accepted, with a clock of 64-bit words and fewer than
  -- 2^64 messages: both threads end; the consumer has handled the first messages that were sent, in
  -- order and each once, all of them unless a recv_all failed; and where it has handled all, the
  -- book is defined and represents the orders that the generated messages make.
  pub tcp_feed_lem :
      (producer_cpu consumer_cpu : ℤ) (s : S) (r : R)
      → num_messages < 2 ^ 64
      → ((k : ℕ) → clock k < 2 ^ 64)
      → c.delivered s ≡ []
      → ((w : Sender S)
          → producer c times cpus (generated clock num_messages symbol) producer_cpu s ≡ some w
          → d.incoming r ≡ c.delivered w.connection)
      → (w : Sender S) × (v : Receiver OrderBook R) × (producer c times cpus
            (generated clock num_messages symbol)
            producer_cpu
            s
          ≡ some w)
        × (consumer d OrderBook.on_message readings num_messages OrderBook.new consumer_cpu r
            ≡ some v)
        × ((k : ℕ) × (k ≤ num_messages)
            × HasHandled OrderBook.on_message OrderBook.new (take k sent) v.worker
            × ((k ≡ num_messages)
                ⊎ ((r' : R) × (buffer : List ℕ) × (recv_all d r' message_size
                      ≡ some (false, buffer, v.connection))))
            × (k ≡ num_messages
                → (b : OrderBook) × (v.worker.book ≡ some b) × Represents b (apply_all sent [])))
  tcp_feed_lem producer_cpu consumer_cpu s r few words fresh carried =
      let msgs = generated clock num_messages symbol in
      let wire = generated-IsWire clock num_messages symbol words in
      let same : stamp_all times 0 msgs ≡ sent =
        stamp_all-generated clock times num_messages symbol in
      let (w, runs, (k, part, _, delivered, _, short, _)) =
        producer_lem c times cpus msgs producer_cpu s wire in
      let went = take k (stamp_all times 0 msgs) in
      let (v, runs', (handled, rest, split, has, le, end)) =
        consumer_lem d OrderBook.on_message readings OrderBook.new num_messages went part
          consumer_cpu r few (All-take k _ (stamp_all-IsWire times 0 msgs wire))
          (carried w runs ∙ delivered ∙ ap (λ xs. xs ++ (stream went ++ part)) fresh) short in
      let front : handled ≡ take (length handled) sent =
        front_of_take k (stamp_all times 0 msgs) handled rest split
        ∙ ap (take (length handled)) same in
      let has' =
        subst (λ xs. HasHandled OrderBook.on_message OrderBook.new xs v.worker) front has in
      let (b, defined, holds) = generated_feed_defined (λ k. stamp (times k)) num_messages symbol in
      (
        w,
        v,
        runs,
        runs',
        (
          length handled,
          le,
          has',
          end,
          (λ all.
              let whole : take (length handled) sent ≡ sent =
                ap (λ n. take n sent)
                  (all ∙ sym (length-generated (λ k. stamp (times k)) num_messages symbol))
                ∙ take-length sent in
              (
                b,
                has'.book
                    ∙ ap (λ xs. fold OrderBook.on_message (some OrderBook.new) xs) whole
                    ∙ fold-process OrderBook.new sent
                    ∙ defined,
                holds,
              )),
        ),
      )
