-- ===== src/Batching/Rounds.antt =====
-- Batches leave the book that the messages leave by themselves.
use latency_lab.Base.{
  ℕ, zero, suc, ◌+◌, ◌-◌, ◌/◌, ◌≤◌, ◌<◌, ◌≡◌, refl, sym, ◌∙◌, ap, subst, min, max, Bool-cases, ltb,
  inl, inr, List, [], ◌∷◌, ◌++◌, Option, none, some, ◌>>=◌, Option-cases, get_elem?, take, drop,
  take-append-drop, drop_nil, drop-drop, length, length-append, arith,
}
use latency_lab.Message.{MarketMessage}
use latency_lab.OrderBook.{OrderBook, on_message, process}
use latency_lab.Metrics.{LatencyRecorder, record_sample}
use latency_lab.Batching.{process_batch, record_times, run_batches, run_all}

pub process-append :
    (b : OrderBook) (xs ys : List MarketMessage)
    → process b (xs ++ ys) ≡ (process b xs >>= (λ b'. process b' ys))
unfolding process
process-append b [] ys = refl
process-append b (x ∷ xs) ys = elim (Option-cases (on_message b x)) [
  | inl stuck ↦ rw stuck refl
  | inr (b', runs) ↦ rw runs (process-append b' xs ys)
]

drop-get :
    (i : ℕ) (messages : List MarketMessage)
    → i < length messages
    → (msg : MarketMessage) × (get_elem? messages i ≡ some msg)
      × (drop i messages ≡ msg ∷ drop (suc i) messages)
drop-get i [] h = absurd (omega arith)
drop-get zero (x ∷ xs) h = (x, refl, refl)
drop-get (suc i) (x ∷ xs) h = drop-get i xs (omega arith)

pub process_batch-take :
    (messages : List MarketMessage) (count i : ℕ) (b : OrderBook)
    → i + count ≤ length messages
    → process_batch messages count i b ≡ process b (take count (drop i messages))
unfolding process_batch process
process_batch-take messages zero i b h = refl
process_batch-take messages (suc count) i b h =
    let (msg, got, dropped) = drop-get i messages (omega arith) in
    rw (got, dropped)
      (elim (Option-cases (on_message b msg)) [
        | inl stuck ↦ rw stuck refl
        | inr (b', runs) ↦ rw runs (process_batch-take messages count (suc i) b' (omega arith))
      ])

drop_clipped : (n : ℕ) (xs : List MarketMessage) → drop (min n (length xs)) xs ≡ drop n xs
drop_clipped zero xs = ap (λ k. drop k xs) (zero_min (length xs))
  where
    zero_min : (m : ℕ) → min zero m ≡ zero
    zero_min m = omega arith
drop_clipped (suc n) [] = drop_nil {A = MarketMessage} (min (suc n) 0)
drop_clipped (suc n) (x ∷ xs) =
    ap (λ k. drop k (x ∷ xs)) (suc_min n (length xs)) ∙ drop_clipped n xs
  where
    suc_min : (n m : ℕ) → min (suc n) (suc m) ≡ suc (min n m)
    suc_min n m = omega arith

drop_all : (n : ℕ) (xs : List MarketMessage) → length xs ≤ n → drop n xs ≡ []
drop_all zero [] h = refl
drop_all zero (x ∷ xs) h = absurd (omega arith)
drop_all (suc n) [] h = refl
drop_all (suc n) (x ∷ xs) h = drop_all n xs (omega arith)

record_times-length :
    (count latency_ns : ℕ) (r : LatencyRecorder)
    → length (record_times count latency_ns r).samples ≡ length r.samples + count
unfolding record_times record_sample
record_times-length zero latency_ns r = omega arith
record_times-length (suc count) latency_ns r = omega (
  arith,
  record_times-length count latency_ns (record_sample r latency_ns),
  length-append r.samples (latency_ns ∷ []),
)

-- The batches end as a book by itself does, and leave `n` samples.
abbrev pub EndsAs : Option OrderBook → ℕ → Option (OrderBook × LatencyRecorder) → Type 0
EndsAs none n result = result ≡ none
EndsAs (some b) n result = (r : LatencyRecorder) × (result ≡ some (b, r)) × (length r.samples ≡ n)

module _ (duration : ℕ → ℕ) (batch_size : ℕ) (messages : List MarketMessage)
    (positive : 0 < batch_size) where
  abbrev batch : ℕ → ℕ
  batch i = min (i + batch_size) (length messages) - i

  batch-process :
      (i : ℕ) (b : OrderBook)
      → i < length messages
      → process b (drop i messages) ≡ (
          process_batch messages (batch i) i b
          >>= (λ b'. process b' (drop (i + batch_size) messages)))
  batch-process i b h =
      ap (process b) (sym (take-append-drop (batch i) (drop i messages)))
      ∙ process-append b (take (batch i) (drop i messages)) (drop (batch i) (drop i messages))
      ∙ ap (λ r. r >>= (λ b'. process b' (drop (batch i) (drop i messages))))
          (sym (process_batch-take messages (batch i) i b (omega arith)))
      ∙ ap (λ xs. process_batch messages (batch i) i b >>= (λ b'. process b' xs))
          (drop-drop i (batch i) messages
            ∙ ap (λ k. drop k messages) (clipped i h)
            ∙ drop_clipped (i + batch_size) messages)
    where
      clipped :
          (i : ℕ)
          → i < length messages
          → i + (min (i + batch_size) (length messages) - i)
            ≡ min (i + batch_size) (length messages)
      clipped i h = omega arith

  run_batches-EndsAs :
      (fuel i : ℕ) (b : OrderBook) (r : LatencyRecorder)
      → length messages - i < fuel
      → EndsAs
          (process b (drop i messages))
          (length r.samples + (length messages - i))
          (run_batches fuel duration batch_size messages i (b, r))
  unfolding run_batches process
  run_batches-EndsAs zero i b r h = absurd (omega arith)
  run_batches-EndsAs (suc fuel) i b r h = elim (Bool-cases (ltb i (length messages))) [
    | inr past ↦
        rw (past, drop_all i messages (ground (arith, past)), run_batches)
          (r, refl, ground (arith, past))
    | inl more ↦
        let before_end : i < length messages = ground (arith, more) in
        rw (more, batch-process i b before_end, run_batches)
          (elim (Option-cases (process_batch messages (batch i) i b)) [
            | inl stuck ↦ rw stuck refl
            | inr (b', runs) ↦
                let latency = duration i / max (batch i) 1 in
                rw runs (
                  subst
                    (λ n. EndsAs (process b' (drop (i + batch_size) messages)) n (
                      run_batches fuel duration batch_size messages (i + batch_size)
                        (b', record_times (batch i) latency r)))
                    (omega (arith, record_times-length (batch i) latency r))
                    (run_batches-EndsAs fuel (i + batch_size) b' (record_times (batch i) latency r)
                      (omega arith)))
          ])
  ]

-- For each positive batch size, the batches leave the book that the messages leave one after the
-- other, with one more sample for each message, or are undefined where that is.
pub run_all-EndsAs :
    (duration : ℕ → ℕ) (batch_size : ℕ) (messages : List MarketMessage) (b : OrderBook)
    (r : LatencyRecorder)
    → 0 < batch_size
    → EndsAs
        (process b messages)
        (length r.samples + length messages)
        (run_all duration batch_size messages (b, r))
unfolding run_all
run_all-EndsAs duration batch_size messages b r positive =
    subst
      (λ n.
        EndsAs (process b messages) (length r.samples + n)
          (run_batches (suc (length messages)) duration batch_size messages 0 (b, r)))
      (minus_zero (length messages))
      (run_batches-EndsAs duration batch_size messages positive (suc (length messages)) 0 b r
        (omega arith))
  where
    minus_zero : (n : ℕ) → n - 0 ≡ n
    minus_zero n = omega arith
