-- ===== src/Generator.antt =====
-- include/latency_lab/generator.hpp and src/generator.cpp. `get_timestamp_ns` reads a clock: the
-- reading for the message with the index `i` is `clock i`.
pub mod Ranges
pub mod Safe
pub mod Pooled
use latency_lab.Base.{
  ℕ, zero, suc, ◌+◌, ◌-◌, ◌*◌, ◌/◌, ◌%◌, ◌^◌, min, ltb, ◌==◌, if◌then◌else◌, List, [], ◌∷◌, ◌++◌,
  length, replicate, take,
}
use latency_lab.Base.Int.{pos, add32, u32_mod}
use latency_lab.Message.{Side, buy, sell, MessageType, add, modify, cancel, trade, MarketMessage}

abbrev pub word_mod : ℕ
word_mod = 2 ^ 64

-- `symbol_` has eight bytes.
pub record MarketDataGenerator : Type 0 where
  pub num_messages : ℕ
  pub seed : ℕ
  pub symbol : List ℕ
  pub messages : List MarketMessage
  pub next_order_id : ℕ
  pub sequence_number : ℕ

-- The first eight bytes of a string, filled up with spaces.
unfoldable pub padded : List ℕ → List ℕ
padded symbol =
    let symbol_length = min 8 (length symbol) in
    take symbol_length symbol ++ replicate (8 - symbol_length) 32

-- `MarketDataGenerator(num_messages, symbol)`; `symbol` is the string less its final zero.
unfoldable pub new : ℕ → List ℕ → MarketDataGenerator
new num_messages symbol = record {
  num_messages = num_messages;
  seed = 12345;
  symbol = padded symbol;
  messages = [];
  next_order_id = 1000;
  sequence_number = 1;
}

-- `next_random`: the new `seed_`, which it also returns.
unfoldable pub next_random : ℕ → ℕ
next_random seed = (1664525 * seed + 1013904223) % word_mod

-- `random_bounded`: what it returns, and the new `seed_`.
unfoldable pub random_bounded : ℕ → ℕ → ℕ × ℕ
random_bounded seed upper_bound = let next = next_random seed in (next / 2 ^ 16 % upper_bound, next)

unfoldable pub side_of : ℕ → Side
side_of random = if random == 0 then buy else sell

unfoldable pub type_of : ℕ → MessageType
type_of type_rand =
    if ltb type_rand 70
    then add
    else (if ltb type_rand 85 then modify else (if ltb type_rand 95 then cancel else trade))

-- The message of one round of the loop, and the last seed.
unfoldable pub make_message : MarketDataGenerator → ℕ → ℕ → MarketMessage × ℕ
make_message g i timestamp =
    let (price, seed₁) = random_bounded g.seed 19000 in
    let (quantity, seed₂) = random_bounded seed₁ 10000 in
    let (side, seed₃) = random_bounded seed₂ 2 in
    let (type_rand, seed₄) = random_bounded seed₃ 100 in
    (
      record {
        sequence_number = g.sequence_number;
        exchange_timestamp_ns = timestamp;
        order_id = (g.next_order_id + i % 10000) % word_mod;
        price = pos (10000 + price);
        quantity = add32 100 (quantity % u32_mod);
        side = side_of side;
        type = type_of (type_rand % u32_mod);
        symbol = g.symbol;
      },
      seed₄,
    )

-- One round of the loop of `generate`.
unfoldable pub generate_one : (ℕ → ℕ) → ℕ → MarketDataGenerator → MarketDataGenerator
generate_one clock i g =
    let (msg, seed) = make_message g i (clock i) in
    record g {
      seed = seed;
      messages = g.messages ++ msg ∷ [];
      sequence_number = (g.sequence_number + 1) % word_mod;
    }

-- The loop, with `rounds` to go from the index `i` on.
unfoldable pub generate_from : (ℕ → ℕ) → ℕ → ℕ → MarketDataGenerator → MarketDataGenerator
generate_from clock zero i g = g
generate_from clock (suc rounds) i g = generate_from clock rounds (suc i) (generate_one clock i g)

unfoldable pub generate : (ℕ → ℕ) → MarketDataGenerator → MarketDataGenerator
generate clock g = generate_from clock g.num_messages 0 g
