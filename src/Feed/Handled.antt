-- ===== src/Feed/Handled.antt =====
-- How the book, the counter and the recorders of a feed's consumer go together.
use latency_lab.Base.{
  ℕ, ◌+◌, ◌-◌, ◌%◌, ◌^◌, ◌≤◌, ◌<◌, ◌≡◌, refl, sym, ◌∙◌, ap, List, [], ◌∷◌, ◌++◌, length,
  length-append, Option, some, ◌>>=◌, arith,
}
use latency_lab.Base.Int.{ℤ}
use latency_lab.Message.{MarketMessage}
use latency_lab.Metrics
use latency_lab.Metrics.{record_sample}
use latency_lab.Worker.Latencies.{sub64-stamp}
use latency_lab.Worker.Fold.{fold, fold-append}
use latency_lab.Wire.{encode}
use latency_lab.Wire.RoundTrip.{IsWire, decode-encode}
use latency_lab.Feed.{FeedReadings, FeedWorker, new_feed_worker, stamped, handle, handle_bytes}

-- A stamped message is one that the wire carries.
pub stamped-IsWire : (m : MarketMessage) (time : ℕ) → IsWire m → IsWire (stamped m time)
stamped-IsWire m time v = record {
  sequence_number = v.sequence_number;
  exchange_timestamp_ns = omega arith;
  order_id = v.order_id;
  price_above = v.price_above;
  price_below = v.price_below;
  quantity = v.quantity;
  symbol = v.symbol;
}

module _ {B : Type 0} (on_message : B → MarketMessage → Option B) (start : B) where
  -- The consumer has handled `passed`, from the book `start`.
  pub record HasHandled (passed : List MarketMessage) (w : FeedWorker B) : Type 0 where
    pub book : w.book ≡ fold on_message (some start) passed
    pub consumed : w.consumed ≡ length passed % 2 ^ 64
    pub arrivals : length w.network_to_book.samples ≡ length passed
    pub processings : length w.book_processing.samples ≡ length passed

  pub new_feed_worker-HasHandled : (cpu : ℤ) → HasHandled [] (new_feed_worker start cpu)
  unfolding new_feed_worker Metrics.new fold
  new_feed_worker-HasHandled cpu = record {
    book = refl;
    consumed = omega arith;
    arrivals = refl;
    processings = refl;
  }

  pub handle-HasHandled :
      (passed : List MarketMessage) (w : FeedWorker B) (m : MarketMessage) (r : FeedReadings)
      → HasHandled passed w
      → HasHandled (passed ++ m ∷ []) (handle on_message w m r)
  unfolding handle record_sample
  handle-HasHandled passed w m r v =
      let longer = length-append passed (m ∷ []) in
      record {
        book =
            ap (λ b. b >>= (λ b'. on_message b' m)) v.book
            ∙ sym (fold-append on_message (some start) passed m);
        consumed = omega (arith, v.consumed, longer);
        arrivals = more w.network_to_book.samples _ v.arrivals longer;
        processings = more w.book_processing.samples _ v.processings longer;
      }
    where
      more :
          (samples : List ℕ) (x : ℕ) {n k : ℕ}
          → length samples ≡ n
          → k ≡ n + 1
          → length (samples ++ x ∷ []) ≡ k
      more samples x h k = omega (arith, h, k, length-append samples (x ∷ []))

  -- The bytes of a message are handled as the message.
  pub handle_bytes-encode :
      (w : FeedWorker B) (m : MarketMessage) (r : FeedReadings)
      → IsWire m
      → handle_bytes on_message w (encode m) r ≡ some (handle on_message w m r)
  unfolding handle_bytes
  handle_bytes-encode w m r v =
      ap (λ o. o >>= (λ m'. some (handle on_message w m' r))) (decode-encode m v).0

  -- Of a message that is stamped when it is sent, and whose round reads the clock in order within 2^64 ns: the two
  -- samples are the times really spent.
  pub handle_latencies :
      (w : FeedWorker B) (m : MarketMessage) (r : FeedReadings) (sent_at : ℕ)
      → sent_at ≤ r.before_book
      → r.before_book ≤ r.book_start
      → r.book_start ≤ r.book_end
      → r.book_end - sent_at < 2 ^ 64
      → ((handle on_message w (stamped m sent_at) r).network_to_book.samples
          ≡ w.network_to_book.samples ++ (r.before_book - sent_at) ∷ [])
        × ((handle on_message w (stamped m sent_at) r).book_processing.samples
            ≡ w.book_processing.samples ++ (r.book_end - r.book_start) ∷ [])
  unfolding handle record_sample
  handle_latencies w m r sent_at h1 h2 h3 whole = (
    ap (λ x. w.network_to_book.samples ++ x ∷ [])
        (sub64-stamp r.before_book sent_at h1 ∙ omega arith),
    ap (λ x. w.book_processing.samples ++ x ∷ [])
        (sub64-stamp r.book_end r.book_start h3 ∙ omega arith),
  )
