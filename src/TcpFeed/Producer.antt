-- ===== src/TcpFeed/Producer.antt =====
-- The producer of a TCP feed ends, and has sent a front of the stamped messages.
use latency_lab.Base.{
  ℕ, suc, ◌+◌, ◌%◌, ◌^◌, ◌≤◌, ◌<◌, ◌≡◌, refl, sym, ◌∙◌, ap, ◌⊎◌, inl, inr, Bool-cases, List, [],
  ◌∷◌, ◌++◌, take, length-take, length, All, some, arith,
}
use mathlib.Core.List.{append_assoc, append-nil}
use latency_lab.Base.Int.{ℤ}
use latency_lab.Message.{MarketMessage}
use latency_lab.Sockets.{Connection}
use latency_lab.Sockets.Send.{send_all-delivered}
use latency_lab.ThreadUtils.{count, track, track_start}
use latency_lab.Wire.{encode, message_size}
use latency_lab.Wire.RoundTrip.{IsWire, length-encode}
use latency_lab.Feed.{stamped, stamp_all}
use latency_lab.Feed.Handled.{stamped-IsWire}
use latency_lab.TcpFeed.{Sender, send_feed, producer}
use latency_lab.TcpFeed.Stream.{stream}

module _ {S : Type 0} (c : Connection S) (clock : ℕ → ℕ) (cpus : ℕ → ℤ) where
  -- `k` messages went out whole, and of the next `part` bytes: none where all went out.
  abbrev pub HasSent : ℕ → List MarketMessage → Sender S → Sender S → Type 0
  HasSent i ms w w' =
      (k : ℕ) × (part : List ℕ) × (k ≤ length ms)
      × (c.delivered w'.connection
          ≡ c.delivered w.connection ++ (stream (take k (stamp_all clock i ms)) ++ part))
      × (w'.produced % 2 ^ 64 ≡ (w.produced + k) % 2 ^ 64)
      × (length part < message_size)
      × ((k < length ms) ⊎ (part ≡ []))

  send_feed-HasSent :
      (i : ℕ) (ms : List MarketMessage) (w : Sender S)
      → All IsWire ms
      → (w' : Sender S) × (send_feed c clock cpus i ms w ≡ some w') × HasSent i ms w w'
  unfolding send_feed stream stamp_all
  send_feed-HasSent i [] w v = (
    w,
    refl,
    (
      0,
      [],
      omega arith,
      sym (append-nil (c.delivered w.connection)),
      omega arith,
      omega arith,
      inr refl,
    ),
  )
  send_feed-HasSent i (m ∷ ms) w v =
      let m' = stamped m (clock i) in
      let (ok, s', n, runs, d, le, full) = send_all-delivered c w.connection (encode m') in
      let size : length (encode m') ≡ message_size =
        length-encode m' (stamped-IsWire m (clock i) v.0) in
      elim (Bool-cases ok) [
        | inl went ↦
            let whole : c.delivered s' ≡ c.delivered w.connection ++ encode m' =
              ground (arith, went, full) in
            let w₁ : Sender S = record {
              connection = s';
              produced = count w.produced;
              cpu = track w.cpu (cpus i);
            } in
            let (w', goes_on, (k, part, in_range, d', counted, short, end)) =
              send_feed-HasSent (suc i) ms w₁ v.1 in
            (
              w',
              rw (runs, went, send_feed) goes_on,
              (
                suc k,
                part,
                omega (arith, in_range),
                d'
                    ∙ ap (λ bytes. bytes ++ (stream (take k (stamp_all clock (suc i) ms)) ++ part))
                        whole
                    ∙ append_assoc (c.delivered w.connection) (encode m') _
                    ∙ ap (◌++◌ (c.delivered w.connection)) (
                        sym (
                          append_assoc (encode m') (stream (take k (stamp_all clock (suc i) ms)))
                            part)),
                omega (arith, counted),
                short,
                ground (arith, end),
              ),
            )
        | inr failed ↦
            let short : n < length (encode m') = ground (arith, full, failed) in
            (
              record w { connection = s' },
              rw (runs, failed, send_feed) refl,
              (
                0,
                take n (encode m'),
                omega arith,
                d,
                omega arith,
                omega (arith, length-take n (encode m') le, short),
                inl (omega arith),
              ),
            )
      ]

  -- On a connection that follows the laws of Sockets.Connection the producer ends; it has sent the
  -- first messages, each with the time of its round and in 64 bytes, and less than 64 bytes of
  -- the next one where it stopped early; and its counter counts, modulo 2^64, the messages that it has
  -- sent whole. The messages are those of the source, whose fields are words.
  pub producer_lem :
      (messages : List MarketMessage) (cpu : ℤ) (s : S)
      → All IsWire messages
      → (w : Sender S) × (producer c clock cpus messages cpu s ≡ some w)
        × ((k : ℕ) × (part : List ℕ) × (k ≤ length messages)
            × (c.delivered w.connection
                ≡ c.delivered s ++ (stream (take k (stamp_all clock 0 messages)) ++ part))
            × (w.produced % 2 ^ 64 ≡ k % 2 ^ 64)
            × (length part < message_size)
            × ((k < length messages) ⊎ (part ≡ [])))
  unfolding producer
  producer_lem messages cpu s v =
      let (w, runs, (k, part, in_range, d, counted, short, end)) =
        send_feed-HasSent 0 messages
          (record { connection = s; produced = 0; cpu = track_start cpu }) v in
      (w, runs, (k, part, in_range, d, omega (arith, counted), short, end))
