-- ===== src/Generator/Ranges.antt =====
-- The messages that `generate` makes: their numbers, their times, and the ranges of their fields.
use latency_lab.Base.{
  ℕ, zero, suc, ◌+◌, ◌-◌, ◌%◌, ◌≤◌, ◌<◌, ◌≡◌, refl, subst, min, List, [], ◌∷◌, ◌++◌, arith, length,
  length-append, length-replicate, take, length-take, get_elem?, some, All, replicate,
}
use latency_lab.Base.Int.{pos, add32}
use latency_lab.Message.{MarketMessage}
use latency_lab.Generator.{
  MarketDataGenerator, word_mod, padded, new, random_bounded, make_message, generate_one,
  generate_from, generate,
}

-- The message with the index `k`.
pub record IsGenerated (clock : ℕ → ℕ) (symbol : List ℕ) (k : ℕ) (msg : MarketMessage)
    : Type 0 where
  pub numbered : msg.sequence_number ≡ (1 + k) % word_mod
  pub timed : msg.exchange_timestamp_ns ≡ clock k
  pub id : msg.order_id ≡ 1000 + k % 10000
  pub price : (p : ℕ) × (msg.price ≡ pos p) × (10000 ≤ p) × (p < 29000)
  pub least : 100 ≤ msg.quantity
  pub greatest : msg.quantity < 10100
  pub symbol_kept : msg.symbol ≡ symbol

random_bounded-lt : (seed bound : ℕ) → 0 < bound → (random_bounded seed bound).0 < bound
unfolding random_bounded
random_bounded-lt seed bound h = omega arith

make_message-IsGenerated :
    (clock : ℕ → ℕ) (g : MarketDataGenerator) (k : ℕ)
    → g.sequence_number ≡ (1 + k) % word_mod
    → g.next_order_id ≡ 1000
    → IsGenerated clock g.symbol k (make_message g k (clock k)).0
unfolding make_message add32
make_message-IsGenerated clock g k s n =
    let seed₁ = (random_bounded g.seed 19000).1 in
    record {
      numbered = s;
      timed = refl;
      id = omega arith;
      price = (
        10000 + (random_bounded g.seed 19000).0,
        refl,
        omega arith,
        omega (arith, random_bounded-lt g.seed 19000 (omega arith)),
      );
      least = omega (arith, random_bounded-lt seed₁ 10000 (omega arith));
      greatest = omega (arith, random_bounded-lt seed₁ 10000 (omega arith));
      symbol_kept = refl;
    }

module _ (clock : ℕ → ℕ) (symbol : List ℕ) where
  -- Messages with the indices from `k` on.
  abbrev AreGenerated : ℕ → List MarketMessage → Type 0
  AreGenerated k [] = Unit {0}
  AreGenerated k (msg ∷ msgs) = IsGenerated clock symbol k msg × AreGenerated (suc k) msgs

  AreGenerated-append :
      (k : ℕ) (msgs : List MarketMessage) (msg : MarketMessage)
      → AreGenerated k msgs
      → IsGenerated clock symbol (length msgs + k) msg
      → AreGenerated k (msgs ++ msg ∷ [])
  AreGenerated-append k [] msg v w =
      (subst (λ i. IsGenerated clock symbol i msg) (omega arith) w, tt)
  AreGenerated-append k (m ∷ msgs) msg v w = (
    v.0,
    AreGenerated-append (suc k) msgs msg v.1
        (subst (λ i. IsGenerated clock symbol i msg) (omega arith) w),
  )

  AreGenerated-get :
      (k i : ℕ) (msgs : List MarketMessage)
      → AreGenerated k msgs
      → i < length msgs
      → (msg : MarketMessage) × (get_elem? msgs i ≡ some msg) × IsGenerated clock symbol (i + k) msg
  AreGenerated-get k i [] v h = absurd (omega arith)
  AreGenerated-get k zero (m ∷ msgs) v h =
      (m, refl, subst (λ j. IsGenerated clock symbol j m) (omega arith) v.0)
  AreGenerated-get k (suc i) (m ∷ msgs) v h =
      let (msg, e, w) = AreGenerated-get (suc k) i msgs v.1 (omega arith) in
      (msg, e, subst (λ j. IsGenerated clock symbol j msg) (omega arith) w)

  AreGenerated-All :
      {P : MarketMessage → Type 0} (k : ℕ) (msgs : List MarketMessage)
      → ((i : ℕ) (msg : MarketMessage) → IsGenerated clock symbol i msg → P msg)
      → AreGenerated k msgs
      → All P msgs
  AreGenerated-All k [] f v = tt
  AreGenerated-All k (msg ∷ msgs) f v = (f k msg v.0, AreGenerated-All (suc k) msgs f v.1)

  -- A generator whose messages have been made by the loop up to the index `i`.
  record IsAt (i : ℕ) (g : MarketDataGenerator) : Type 0 where
    next_sequence : g.sequence_number ≡ (1 + i) % word_mod
    next_id : g.next_order_id ≡ 1000
    symbol_same : g.symbol ≡ symbol
    count : length g.messages ≡ i
    made : AreGenerated 0 g.messages

  generate_one-IsAt :
      (i : ℕ) (g : MarketDataGenerator) → IsAt i g → IsAt (suc i) (generate_one clock i g)
  unfolding generate_one
  generate_one-IsAt i g v = record {
    next_sequence = omega (arith, v.next_sequence);
    next_id = v.next_id;
    symbol_same = v.symbol_same;
    count = omega (arith, v.count, length-append g.messages ((make_message g i (clock i)).0 ∷ []));
    made = AreGenerated-append 0 g.messages _ v.made (
        subst (λ k. IsGenerated clock symbol k (make_message g i (clock i)).0)
          (omega (arith, v.count))
          (subst (λ s. IsGenerated clock s i (make_message g i (clock i)).0) v.symbol_same
            (make_message-IsGenerated clock g i v.next_sequence v.next_id)));
  }

  generate_from-IsAt :
      (rounds i : ℕ) (g : MarketDataGenerator)
      → IsAt i g
      → IsAt (rounds + i) (generate_from clock rounds i g)
  unfolding generate_from
  generate_from-IsAt zero i g v = subst (λ k. IsAt k g) (omega arith) v
  generate_from-IsAt (suc rounds) i g v =
      subst (λ k. IsAt k (generate_from clock rounds (suc i) (generate_one clock i g)))
        (omega arith)
        (generate_from-IsAt rounds (suc i) (generate_one clock i g) (generate_one-IsAt i g v))

-- What a generator made for a number of messages and a symbol yields.
abbrev pub generated : (ℕ → ℕ) → ℕ → List ℕ → List MarketMessage
generated clock num_messages symbol = (generate clock (new num_messages symbol)).messages

new-IsAt : (clock : ℕ → ℕ) (n : ℕ) (symbol : List ℕ) → IsAt clock (padded symbol) 0 (new n symbol)
unfolding new
new-IsAt clock n symbol = record {
  next_sequence = omega arith;
  next_id = refl;
  symbol_same = refl;
  count = refl;
  made = tt;
}

generated-IsAt :
    (clock : ℕ → ℕ) (n : ℕ) (symbol : List ℕ)
    → IsAt clock (padded symbol) n (generate clock (new n symbol))
unfolding generate new
generated-IsAt clock n symbol =
    subst (λ k. IsAt clock (padded symbol) k (generate clock (new n symbol))) (omega arith)
      (generate_from-IsAt clock (padded symbol) n 0 (new n symbol) (new-IsAt clock n symbol))

pub length-padded : (symbol : List ℕ) → length (padded symbol) ≡ 8
unfolding padded
length-padded symbol = ground (
  arith,
  length-append (take (min 8 (length symbol)) symbol) (replicate (8 - min 8 (length symbol)) 32),
  length-take (min 8 (length symbol)) symbol,
  length-replicate {A = ℕ} (8 - min 8 (length symbol)) 32,
)

-- generate makes as many messages as asked for; the one with the index k has the sequence number k
-- + 1 modulo 2^64, the time that the clock gives for k, the identifier 1000 + k % 10000, a price
-- from 10000 to 28999, a quantity from 100 to 10099, and the symbol padded to eight bytes.
pub generate_lem :
    (clock : ℕ → ℕ) (num_messages : ℕ) (symbol : List ℕ) (k : ℕ)
    → k < num_messages
    → (length (generated clock num_messages symbol) ≡ num_messages)
      × (length (padded symbol) ≡ 8)
      × ((msg : MarketMessage) × (get_elem? (generated clock num_messages symbol) k ≡ some msg)
          × IsGenerated clock (padded symbol) k msg)
generate_lem clock n symbol k h =
    let v = generated-IsAt clock n symbol in
    let (msg, e, w) =
      AreGenerated-get clock (padded symbol) 0 k (generated clock n symbol) v.made
        (omega (arith, v.count)) in
    (
      v.count,
      length-padded symbol,
      (msg, e, subst (λ i. IsGenerated clock (padded symbol) i msg) (omega arith) w),
    )

-- What holds of the messages that the loop makes.
pub generated-All :
    {P : MarketMessage → Type 0} (clock : ℕ → ℕ) (n : ℕ) (symbol : List ℕ)
    → ((i : ℕ) (msg : MarketMessage) → IsGenerated clock (padded symbol) i msg → P msg)
    → All P (generated clock n symbol)
generated-All clock n symbol f =
    AreGenerated-All clock (padded symbol) 0 (generated clock n symbol) f
      (generated-IsAt clock n symbol).made

pub length-generated :
    (clock : ℕ → ℕ) (n : ℕ) (symbol : List ℕ) → length (generated clock n symbol) ≡ n
length-generated clock n symbol = (generated-IsAt clock n symbol).count

-- An identifier and a quantity as `generate` makes them.
abbrev pub IsTypical : MarketMessage → Type 0
IsTypical msg = (1000 ≤ msg.order_id) × (msg.order_id < 11000) × (msg.quantity < 10100)

pub generated-IsTypical :
    (clock : ℕ → ℕ) (n : ℕ) (symbol : List ℕ) → All IsTypical (generated clock n symbol)
generated-IsTypical clock n symbol =
    generated-All clock n symbol (λ i msg v. (omega (arith, v.id), omega (arith, v.id), v.greatest))
