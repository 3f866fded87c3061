-- ===== src/Message.antt =====
-- include/latency_lab/market_message.hpp: the message that every component passes on.
use latency_lab.Base.{ℕ, Bool, true, false, List}
use latency_lab.Base.Int.{ℤ}

pub data Side : Type 0 where
  buy sell : Side

pub data MessageType : Type 0 where
  add modify cancel trade : MessageType

-- `struct MarketMessage`, less its padding. `symbol` holds eight bytes.
pub record MarketMessage : Type 0 where
  pub sequence_number : ℕ
  pub exchange_timestamp_ns : ℕ
  pub order_id : ℕ
  pub price : ℤ
  pub quantity : ℕ
  pub side : Side
  pub type : MessageType
  pub symbol : List ℕ

abbrev pub same_side : Side → Side → Bool
same_side buy buy = true
same_side sell sell = true
same_side _ _ = false
