-- ===== src/TcpFeed/Consumer.antt =====
-- The consumer of a TCP feed ends, and has handled the messages of the stream from the first on, in order.
use latency_lab.Base.{
  ℕ, zero, suc, ◌+◌, ◌^◌, ◌≤◌, ◌<◌, ◌≡◌, refl, sym, ◌∙◌, ap, subst, ◌⊎◌, inl, inr, false, ltb,
  Bool-cases, List, [], ◌∷◌, ◌++◌, take, drop, take_front, drop_front, length, length-append, All,
  Option, some, arith,
}
use mathlib.Core.List.{append_assoc}
use latency_lab.Base.Int.{ℤ}
use latency_lab.Message.{MarketMessage}
use latency_lab.Sockets.{Connection, recv_all}
use latency_lab.Sockets.Receive.{recv_all_ends}
use latency_lab.Wire.{encode, message_size}
use latency_lab.Wire.RoundTrip.{IsWire, length-encode}
use latency_lab.Feed.{FeedReadings, new_feed_worker, handle, handle_bytes}
use latency_lab.Feed.Handled.{
  HasHandled, new_feed_worker-HasHandled, handle-HasHandled, handle_bytes-encode,
}
use latency_lab.TcpFeed.{Receiver, receive_feed, consumer}
use latency_lab.TcpFeed.Stream.{stream}

-- A buffer of 64 bytes at the front of a stream is its first message.
first_message :
    (ms : List MarketMessage) (part buffer rest : List ℕ)
    → All IsWire ms
    → stream ms ++ part ≡ buffer ++ rest
    → length buffer ≡ message_size
    → length part < message_size
    → (m : MarketMessage) × (ms' : List MarketMessage) × (ms ≡ m ∷ ms')
      × IsWire m
      × All IsWire ms'
      × (buffer ≡ encode m)
      × (rest ≡ stream ms' ++ part)
unfolding stream
first_message [] part buffer rest v e size short =
    absurd (omega (arith, ap length e, length-append buffer rest, size, short))
first_message (m ∷ ms) part buffer rest v e size short =
    let e' : encode m ++ (stream ms ++ part) ≡ buffer ++ rest =
      sym (append_assoc (encode m) (stream ms) part) ∙ e in
    let size' = length-encode m v.0 in
    (
      m,
      ms,
      refl,
      v.0,
      v.1,
      sym (take_front message_size buffer rest size)
          ∙ sym (ap (take message_size) e')
          ∙ take_front message_size (encode m) (stream ms ++ part) size',
      sym (drop_front message_size buffer rest size)
          ∙ sym (ap (drop message_size) e')
          ∙ drop_front message_size (encode m) (stream ms ++ part) size',
    )

module _ {B S : Type 0} (c : Connection S) (on_message : B → MarketMessage → Option B)
    (readings : ℕ → FeedReadings) (start : B) (num_messages : ℕ) where
  -- The consumer has handled the first messages of the stream, as many as it was asked for, or as came
  -- before a failing `recv_all`.
  abbrev Received : List MarketMessage → Receiver B S → Type 0
  Received ms w =
      (handled rest : List MarketMessage) × (ms ≡ handled ++ rest)
      × HasHandled on_message start handled w.worker
      × (length handled ≤ num_messages)
      × ((length handled ≡ num_messages)
          ⊎ ((s : S) × (buffer : List ℕ) × (recv_all c s message_size
                ≡ some (false, buffer, w.connection))))

  receive_feed_ends :
      (fuel : ℕ) (handled ms : List MarketMessage) (part : List ℕ) (w : Receiver B S)
      → num_messages < 2 ^ 64
      → num_messages < fuel + length handled
      → length handled ≤ num_messages
      → HasHandled on_message start handled w.worker
      → All IsWire ms
      → c.incoming w.connection ≡ stream ms ++ part
      → length part < message_size
      → (w' : Receiver B S) × (receive_feed c on_message readings fuel num_messages w ≡ some w')
        × Received (handled ++ ms) w'
  unfolding receive_feed
  receive_feed_ends zero handled ms part w h enough le v wire d short =
      absurd (omega (arith, enough))
  receive_feed_ends (suc fuel) handled ms part w h enough le v wire d short =
      let counted : w.worker.consumed ≡ length handled = v.consumed ∙ omega (arith, h, le) in
      elim (Bool-cases (ltb w.worker.consumed num_messages)) [
        | inr done ↦ (
          w,
          rw (done, receive_feed) refl,
          (handled, ms, refl, v, le, inl (ground (arith, done, counted))),
        )
        | inl more ↦
            let less : length handled < num_messages = ground (arith, more, counted) in
            let (ok, buffer, s', runs, taken, fits, full) =
              recv_all_ends c w.connection message_size in
            elim (Bool-cases ok) [
              | inr failed ↦ (
                record w { connection = s' },
                rw (more, runs, failed, receive_feed) refl,
                (
                  handled,
                  ms,
                  refl,
                  v,
                  le,
                  inr (w.connection, buffer, runs ∙ ap (λ b. some (b, buffer, s')) failed),
                ),
              )
              | inl went ↦
                  let (m, ms', e, wire_m, wire', is_m, rest) =
                    first_message ms part buffer (c.incoming s') wire (sym d ∙ taken)
                      (ground (arith, full, went)) short in
                  let worker = handle on_message w.worker m (readings w.worker.consumed) in
                  let decoded : handle_bytes on_message w.worker buffer (readings w.worker.consumed)
                      ≡ some worker =
                    ap (λ bs. handle_bytes on_message w.worker bs (readings w.worker.consumed)) is_m
                    ∙ handle_bytes-encode on_message start w.worker m (readings w.worker.consumed)
                        wire_m in
                  let (w', goes_on, received) =
                    receive_feed_ends fuel (handled ++ m ∷ []) ms' part
                      (record { connection = s'; worker = worker }) h
                      (omega (arith, enough, length-append handled (m ∷ [])))
                      (omega (arith, less, length-append handled (m ∷ [])))
                      (handle-HasHandled on_message start handled w.worker m _ v) wire' rest
                      short in
                  (
                    w',
                    rw (more, runs, went, decoded, receive_feed) goes_on,
                    subst (λ xs. Received xs w')
                        (append_assoc handled (m ∷ []) ms' ∙ ap (◌++◌ handled) (sym e)) received,
                  )
            ]
      ]

  -- On a connection that follows the laws of Sockets.Connection, whose stream holds the bytes of
  -- messages and at its end less than 64 more: the consumer, asked for fewer than 2^64 messages, ends, and
  -- has handled the first messages of the stream, in order, each once: as many as it was asked for, or
  -- as came before a recv_all that failed.
  pub consumer_lem :
      (messages : List MarketMessage) (part : List ℕ) (cpu : ℤ) (s : S)
      → num_messages < 2 ^ 64
      → All IsWire messages
      → c.incoming s ≡ stream messages ++ part
      → length part < message_size
      → (w : Receiver B S) × (consumer c on_message readings num_messages start cpu s ≡ some w)
        × ((handled rest : List MarketMessage) × (messages ≡ handled ++ rest)
            × HasHandled on_message start handled w.worker
            × (length handled ≤ num_messages)
            × ((length handled ≡ num_messages)
                ⊎ ((s' : S) × (buffer : List ℕ) × (recv_all c s' message_size
                      ≡ some (false, buffer, w.connection)))))
  unfolding consumer
  consumer_lem messages part cpu s h wire d short =
      receive_feed_ends (suc num_messages) [] messages part
        (record { connection = s; worker = new_feed_worker start cpu }) h (omega arith)
        (omega arith) (new_feed_worker-HasHandled on_message start cpu) wire d short
