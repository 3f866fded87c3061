-- ===== src/Feed/Generated.antt =====
-- The messages that a feed's producer sends: those of the generator, with the times at which they are sent.
use latency_lab.Base.{
  ℕ, zero, suc, ◌+◌, ◌^◌, ◌<◌, ◌≤◌, ◌≡◌, refl, sym, ◌∙◌, ap, subst, List, [], ◌∷◌, ◌++◌, All,
  length, length-append, arith,
}
use latency_lab.Base.Int.{pos_part, neg_part}
use latency_lab.Message.{MarketMessage}
use latency_lab.Generator.{
  MarketDataGenerator, padded, new, make_message, generate_one, generate_from, generate,
}
use latency_lab.Generator.Ranges.{IsGenerated, generated, generated-All, length-padded}
use latency_lab.Worker.{stamp}
use latency_lab.Wire.RoundTrip.{IsWire}
use latency_lab.Feed.{stamped, stamp_all}
use latency_lab.Feed.Handled.{stamped-IsWire}

pub stamp_all-IsWire :
    (clock : ℕ → ℕ) (i : ℕ) (ms : List MarketMessage)
    → All IsWire ms
    → All IsWire (stamp_all clock i ms)
unfolding stamp_all
stamp_all-IsWire clock i [] v = tt
stamp_all-IsWire clock i (m ∷ ms) v =
    (stamped-IsWire m (clock i) v.0, stamp_all-IsWire clock (suc i) ms v.1)

pub length-stamp_all :
    (clock : ℕ → ℕ) (i : ℕ) (ms : List MarketMessage) → length (stamp_all clock i ms) ≡ length ms
unfolding stamp_all
length-stamp_all clock i [] = refl
length-stamp_all clock i (m ∷ ms) = ap suc (length-stamp_all clock (suc i) ms)

-- The messages of the generator are words in all their fields, if its clock is.
pub generated-IsWire :
    (clock : ℕ → ℕ) (n : ℕ) (symbol : List ℕ)
    → ((k : ℕ) → clock k < 2 ^ 64)
    → All IsWire (generated clock n symbol)
generated-IsWire clock n symbol h = generated-All clock n symbol wire
  where
    wire : (i : ℕ) (msg : MarketMessage) → IsGenerated clock (padded symbol) i msg → IsWire msg
    wire i msg v =
        let (p, price, _, less) = v.price in
        record {
          sequence_number = omega (arith, v.numbered);
          exchange_timestamp_ns = omega (arith, v.timed, h i);
          order_id = omega (arith, v.id);
          price_above = subst (λ z. pos_part z < 2 ^ 63) (sym price) (omega (arith, less));
          price_below = subst (λ z. neg_part z ≤ 2 ^ 63) (sym price) (omega arith);
          quantity = omega (arith, v.greatest);
          symbol = ap length v.symbol_kept ∙ length-padded symbol;
        }

module _ (clock times : ℕ → ℕ) where
  abbrev sent_clock : ℕ → ℕ
  sent_clock k = stamp (times k)

  stamp_all-append :
      (i : ℕ) (ms : List MarketMessage) (m : MarketMessage)
      → stamp_all times i (ms ++ m ∷ [])
        ≡ stamp_all times i ms ++ stamped m (times (length ms + i)) ∷ []
  unfolding stamp_all
  stamp_all-append i [] m = ap (λ k. stamped m (times k) ∷ []) (omega arith)
  stamp_all-append i (x ∷ ms) m = ap (◌∷◌ (stamped x (times i))) (
      stamp_all-append (suc i) ms m
      ∙ ap (λ k. stamp_all times (suc i) ms ++ stamped m (times k) ∷ []) (omega arith))

  -- The generator `g` with the times put in.
  abbrev restamped : MarketDataGenerator → MarketDataGenerator
  restamped g = record g { messages = stamp_all times 0 g.messages }

  restamped-generate_one :
      (i : ℕ) (g : MarketDataGenerator)
      → length g.messages ≡ i
      → generate_one sent_clock i (restamped g) ≡ restamped (generate_one clock i g)
  unfolding generate_one make_message
  restamped-generate_one i g h =
      let m = (make_message g i (clock i)).0 in
      let r = generate_one clock i g in
      ap (λ ms. record r { messages = ms })
        (sym (
          stamp_all-append 0 g.messages m
          ∙ ap (λ k. stamp_all times 0 g.messages ++ stamped m (times k) ∷ []) (omega (arith, h))))

  length-generate_one :
      (i : ℕ) (g : MarketDataGenerator)
      → length g.messages ≡ i
      → length (generate_one clock i g).messages ≡ suc i
  unfolding generate_one
  length-generate_one i g h =
      omega (arith, h, length-append g.messages ((make_message g i (clock i)).0 ∷ []))

  restamped-generate_from :
      (rounds i : ℕ) (g : MarketDataGenerator)
      → length g.messages ≡ i
      → generate_from sent_clock rounds i (restamped g) ≡ restamped (generate_from clock rounds i g)
  unfolding generate_from
  restamped-generate_from zero i g h = refl
  restamped-generate_from (suc rounds) i g h =
      ap (generate_from sent_clock rounds (suc i)) (restamped-generate_one i g h)
      ∙ restamped-generate_from rounds (suc i) (generate_one clock i g) (length-generate_one i g h)

  -- The generated messages with new times are those of a generator that reads these times.
  pub stamp_all-generated :
      (n : ℕ) (symbol : List ℕ)
      → stamp_all times 0 (generated clock n symbol) ≡ generated (λ k. stamp (times k)) n symbol
  unfolding generate new stamp_all
  stamp_all-generated n symbol =
      sym (ap (λ g. g.messages) (restamped-generate_from n 0 (new n symbol) refl))
