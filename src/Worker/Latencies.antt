-- ===== src/Worker/Latencies.antt =====
-- What the latency samples of a consumer say, and how its recorders and its counter go together.
use latency_lab.Base.{
  ℕ, ◌+◌, ◌-◌, ◌%◌, ◌^◌, ◌≤◌, ◌<◌, ◌≡◌, refl, ◌∙◌, ap, List, [], ◌∷◌, ◌++◌, length, length-append,
  Option, some, ◌>>=◌, arith, sym,
}
use latency_lab.Base.Int.{ℤ}
use latency_lab.Message.{MarketMessage}
use latency_lab.Metrics
use latency_lab.Metrics.{LatencyRecorder, record_sample}
use latency_lab.Worker.{MarketMessageEnvelope, stamp, sub64, Readings, Worker, new_worker, work}
use latency_lab.Worker.Fold.{fold, fold-append}

-- The difference of two stamps is the time between them, modulo 2^64, also where the clock wraps in
-- between.
pub sub64-stamp : (a b : ℕ) → b ≤ a → sub64 (stamp a) (stamp b) ≡ (a - b) % 2 ^ 64
unfolding sub64
sub64-stamp a b h = omega arith

module _ {B : Type 0} (on_message : B → MarketMessage → Option B) where
  -- One round with an envelope whose stamps are those of the times at which its message was taken
  -- up and pushed, all times in order and the whole within 2^64 ns: it adds one sample to each
  -- recorder, the times really spent, and the waiting and the processing are together at most the
  -- latency.
  pub work_latencies :
      (w : Worker B) (e : MarketMessageEnvelope) (r : Readings) (produced_at pushed_at : ℕ)
      → e.producer_timestamp_ns ≡ stamp produced_at
      → e.queue_push_timestamp_ns ≡ stamp pushed_at
      → produced_at ≤ pushed_at
      → pushed_at ≤ r.pop_time
      → r.pop_time ≤ r.book_start
      → r.book_start ≤ r.book_end
      → r.book_end ≤ r.end_time
      → r.end_time - produced_at < 2 ^ 64
      → (wait processing latency : ℕ) × ((work on_message w e r).queue_wait.samples
          ≡ w.queue_wait.samples ++ wait ∷ [])
        × ((work on_message w e r).book_processing.samples
            ≡ w.book_processing.samples ++ processing ∷ [])
        × ((work on_message w e r).pipeline_latency.samples
            ≡ w.pipeline_latency.samples ++ latency ∷ [])
        × (wait ≡ r.pop_time - pushed_at)
        × (processing ≡ r.book_end - r.book_start)
        × (latency ≡ r.end_time - produced_at)
        × (wait + processing ≤ latency)
  unfolding work record_sample
  work_latencies w e r produced_at pushed_at p q h1 h2 h3 h4 h5 whole =
      let wait : sub64 (stamp r.pop_time) e.queue_push_timestamp_ns ≡ r.pop_time - pushed_at =
        ap (sub64 (stamp r.pop_time)) q ∙ sub64-stamp r.pop_time pushed_at h2 ∙ omega arith in
      let processing : sub64 (stamp r.book_end) (stamp r.book_start) ≡ r.book_end - r.book_start =
        sub64-stamp r.book_end r.book_start h4 ∙ omega arith in
      let latency : sub64 (stamp r.end_time) e.producer_timestamp_ns ≡ r.end_time - produced_at =
        ap (sub64 (stamp r.end_time)) p
        ∙ sub64-stamp r.end_time produced_at (omega arith)
        ∙ omega arith in
      (
        _,
        _,
        _,
        refl,
        refl,
        refl,
        wait,
        processing,
        latency,
        omega (arith, wait, processing, latency),
      )

  -- The consumer has worked through `passed`, from the book `start`.
  pub record HasWorked (start : B) (passed : List MarketMessage) (w : Worker B) : Type 0 where
    pub book : w.book ≡ fold on_message (some start) passed
    pub consumed : w.consumed ≡ length passed % 2 ^ 64
    pub waits : length w.queue_wait.samples ≡ length passed
    pub processings : length w.book_processing.samples ≡ length passed
    pub latencies : length w.pipeline_latency.samples ≡ length passed

  pub new_worker-HasWorked : (start : B) (cpu : ℤ) → HasWorked start [] (new_worker start cpu)
  unfolding new_worker Metrics.new fold
  new_worker-HasWorked start cpu = record {
    book = refl;
    consumed = omega arith;
    waits = refl;
    processings = refl;
    latencies = refl;
  }

  pub work-HasWorked :
      (start : B) (passed : List MarketMessage) (w : Worker B) (e : MarketMessageEnvelope)
      (r : Readings)
      → HasWorked start passed w
      → HasWorked start (passed ++ e.message ∷ []) (work on_message w e r)
  unfolding work record_sample
  work-HasWorked start passed w e r v =
      let longer = length-append passed (e.message ∷ []) in
      record {
        book =
            ap (λ b. b >>= (λ b'. on_message b' e.message)) v.book
            ∙ sym (fold-append on_message (some start) passed e.message);
        consumed = omega (arith, v.consumed, longer);
        waits = more w.queue_wait.samples _ v.waits longer;
        processings = more w.book_processing.samples _ v.processings longer;
        latencies = more w.pipeline_latency.samples _ v.latencies longer;
      }
    where
      more :
          (samples : List ℕ) (x : ℕ) {n m : ℕ}
          → length samples ≡ n
          → m ≡ n + 1
          → length (samples ++ x ∷ []) ≡ m
      more samples x h k = omega (arith, h, k, length-append samples (x ∷ []))
