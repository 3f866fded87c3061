-- ===== src/Wire.antt =====
-- The 64 bytes of a `MarketMessage` of include/latency_lab/market_message.hpp in memory, as send and recv
-- copy them: the fields in their order, each number with its lowest byte first, and the padding, which is 0.
pub mod RoundTrip
use latency_lab.Base.{
  ℕ, zero, suc, ◌+◌, ◌-◌, ◌*◌, ◌/◌, ◌%◌, ◌^◌, ◌==◌, ltb, if◌then◌else◌, List, [], ◌∷◌, ◌++◌, Option,
  none, some, ◌>>=◌, take, drop, replicate,
}
use latency_lab.Base.Int.{ℤ, pos, negsuc}
use latency_lab.Message.{Side, buy, sell, MessageType, add, modify, cancel, trade, MarketMessage}

-- `sizeof(MarketMessage)`
abbrev pub message_size : ℕ
message_size = 64

-- The lowest `w` bytes of a number.
unfoldable pub word : ℕ → ℕ → List ℕ
word zero n = []
word (suc w) n = n % 256 ∷ word w (n / 256)

unfoldable pub value : List ℕ → ℕ
value [] = 0
value (b ∷ bs) = b + 256 * value bs

-- The word of an `int64_t`, and back.
unfoldable pub u64_of : ℤ → ℕ
u64_of (pos n) = n
u64_of (negsuc n) = 2 ^ 64 - 1 - n

unfoldable pub int64_of : ℕ → ℤ
int64_of w = if ltb w (2 ^ 63) then pos w else negsuc (2 ^ 64 - 1 - w)

unfoldable pub side_byte : Side → ℕ
side_byte buy = 0
side_byte sell = 1

unfoldable pub type_byte : MessageType → ℕ
type_byte add = 0
type_byte modify = 1
type_byte cancel = 2
type_byte trade = 3

unfoldable pub side_of : ℕ → Option Side
side_of b = if b == 0 then some buy else if b == 1 then some sell else none

unfoldable pub type_of : ℕ → Option MessageType
type_of b =
    if b == 0
    then some add
    else if b == 1
    then some modify
    else if b == 2
    then some cancel
    else if b == 3
    then some trade
    else none

unfoldable pub encode : MarketMessage → List ℕ
encode m =
    word 8 m.sequence_number
    ++ (word 8 m.exchange_timestamp_ns
        ++ (word 8 m.order_id
            ++ (word 8 (u64_of m.price)
                ++ (word 4 m.quantity
                    ++ (word 1 (side_byte m.side)
                        ++ (word 1 (type_byte m.type) ++ (m.symbol ++ replicate 18 0)))))))

-- A number of `w` bytes, and what stands behind it.
unfoldable pub read : ℕ → List ℕ → ℕ × List ℕ
read w bytes = (value (take w bytes), drop w bytes)

-- The message that 64 bytes hold; `none` where the side or the type is none of the enumerators.
unfoldable pub decode : List ℕ → Option MarketMessage
decode bytes =
    let (sequence_number, bytes₁) = read 8 bytes in
    let (exchange_timestamp_ns, bytes₂) = read 8 bytes₁ in
    let (order_id, bytes₃) = read 8 bytes₂ in
    let (price, bytes₄) = read 8 bytes₃ in
    let (quantity, bytes₅) = read 4 bytes₄ in
    let (side, bytes₆) = read 1 bytes₅ in
    let (type, bytes₇) = read 1 bytes₆ in
    side_of side >>= (λ side'. type_of type >>= (λ type'. some (record {
      sequence_number = sequence_number;
      exchange_timestamp_ns = exchange_timestamp_ns;
      order_id = order_id;
      price = int64_of price;
      quantity = quantity;
      side = side';
      type = type';
      symbol = take 8 bytes₇;
    })))
