-- ===== src/Wire/RoundTrip.antt =====
-- The receiver reads the message that the sender wrote.
use latency_lab.Base.{
  ℕ, zero, suc, ◌*◌, ◌/◌, ◌^◌, ◌<◌, ◌≤◌, ◌≡◌, refl, ◌∙◌, ap, ap₂, List, ◌++◌, some, length,
  length-append, take_front, drop_front, replicate, arith,
}
use latency_lab.Base.Int.{ℤ, pos, negsuc, pos_part, neg_part}
use latency_lab.Message.{Side, buy, sell, MessageType, add, modify, cancel, trade, MarketMessage}
use latency_lab.Wire.{
  message_size, word, value, u64_of, int64_of, side_byte, type_byte, side_of, type_of, encode, read,
  decode,
}

-- 256 ^ w
abbrev bound : ℕ → ℕ
bound zero = 1
bound (suc w) = 256 * bound w

-- The fields are words of their widths, which every MarketMessage of the source is.
pub record IsWire (m : MarketMessage) : Type 0 where
  pub sequence_number : m.sequence_number < 2 ^ 64
  pub exchange_timestamp_ns : m.exchange_timestamp_ns < 2 ^ 64
  pub order_id : m.order_id < 2 ^ 64
  pub price_above : pos_part m.price < 2 ^ 63
  pub price_below : neg_part m.price ≤ 2 ^ 63
  pub quantity : m.quantity < 2 ^ 32
  pub symbol : length m.symbol ≡ 8

value-word : (w n : ℕ) → n < bound w → value (word w n) ≡ n
unfolding value word
value-word zero n h = omega (arith, h)
value-word (suc w) n h = omega (arith, value-word w (n / 256) (omega (arith, h)))

length-word : (w n : ℕ) → length (word w n) ≡ w
unfolding word
length-word zero n = refl
length-word (suc w) n = ap suc (length-word w (n / 256))

read-word : (w n : ℕ) (rest : List ℕ) → n < bound w → read w (word w n ++ rest) ≡ (n, rest)
unfolding read
read-word w n rest h =
    ap₂ (λ a b. (a, b))
      (ap value (take_front w (word w n) rest (length-word w n)) ∙ value-word w n h)
      (drop_front w (word w n) rest (length-word w n))

u64_of-lt : (z : ℤ) → pos_part z < 2 ^ 63 → u64_of z < 2 ^ 64
unfolding u64_of
u64_of-lt (pos n) h = omega (arith, h)
u64_of-lt (negsuc n) h = omega arith

int64_of-u64_of : (z : ℤ) → pos_part z < 2 ^ 63 → neg_part z ≤ 2 ^ 63 → int64_of (u64_of z) ≡ z
unfolding int64_of u64_of
int64_of-u64_of (pos n) h k = ground (arith, h)
int64_of-u64_of (negsuc n) h k = ground (arith, k)

side_of-side_byte : (s : Side) → (side_of (side_byte s) ≡ some s) × (side_byte s < 256)
unfolding side_of side_byte
side_of-side_byte buy = (refl, omega arith)
side_of-side_byte sell = (refl, omega arith)

type_of-type_byte : (t : MessageType) → (type_of (type_byte t) ≡ some t) × (type_byte t < 256)
unfolding type_of type_byte
type_of-type_byte add = (refl, omega arith)
type_of-type_byte modify = (refl, omega arith)
type_of-type_byte cancel = (refl, omega arith)
type_of-type_byte trade = (refl, omega arith)

pub length-encode : (m : MarketMessage) → IsWire m → length (encode m) ≡ message_size
unfolding encode word
length-encode m v = omega (arith, v.symbol, length-append m.symbol (replicate 18 0))

-- A message whose fields are words of their widths is read back from its 64 bytes.
pub decode-encode :
    (m : MarketMessage)
    → IsWire m
    → (decode (encode m) ≡ some m) × (length (encode m) ≡ message_size)
unfolding decode encode
decode-encode m v =
    let r7 = m.symbol ++ replicate 18 0 in
    let r6 = word 1 (type_byte m.type) ++ r7 in
    let r5 = word 1 (side_byte m.side) ++ r6 in
    let r4 = word 4 m.quantity ++ r5 in
    let r3 = word 8 (u64_of m.price) ++ r4 in
    let r2 = word 8 m.order_id ++ r3 in
    let r1 = word 8 m.exchange_timestamp_ns ++ r2 in
    let (side, side_fits) = side_of-side_byte m.side in
    let (type, type_fits) = type_of-type_byte m.type in
    (
      rw
          (
            read-word 8 m.sequence_number r1 v.sequence_number,
            read-word 8 m.exchange_timestamp_ns r2 v.exchange_timestamp_ns,
            read-word 8 m.order_id r3 v.order_id,
            read-word 8 (u64_of m.price) r4 (u64_of-lt m.price v.price_above),
            read-word 4 m.quantity r5 v.quantity,
            read-word 1 (side_byte m.side) r6 side_fits,
            read-word 1 (type_byte m.type) r7 type_fits,
            side,
            type,
            int64_of-u64_of m.price v.price_above v.price_below,
            take_front 8 m.symbol (replicate 18 0) v.symbol,
          )
          refl,
      length-encode m v,
    )
