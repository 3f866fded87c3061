-- ===== src/Tests/Feed.antt =====
-- A small feed, and the books that it leaves.
use latency_lab.Base.{ℕ, Option, List, [], ◌∷◌, arith, All}
use latency_lab.Base.Int.{pos, add32, sub32}
use latency_lab.Message.{Side, buy, sell, MessageType, add, modify, trade, MarketMessage}
use latency_lab.StdMap.{find, emplace, assign, erase, begin}
use latency_lab.Level.{PriceLevel, erase_id, is_empty}
use latency_lab.OrderBook.{
  OrderBook, new, process, on_message, handle_add, handle_modify, handle_cancel, handle_trade,
  order_of, add_to_level, modify_total, modify_level, cancel_level, trade_level, best_bid,
}
use latency_lab.OrderBook.Refinement.{IsWord, StaySmall}
use latency_lab.OrderBook.Small.{StaySmall-of-sum}
use latency_lab.Resting.{
  Resting, apply, apply_all, lookup, remove, set_quantity, ids_at, quantity_at, is_at,
  sum_quantities,
}

abbrev pub message : MessageType → ℕ → Side → ℕ → ℕ → MarketMessage
message type id side price quantity = record {
  sequence_number = 1;
  exchange_timestamp_ns = 0;
  order_id = id;
  price = pos price;
  quantity = quantity;
  side = side;
  type = type;
  symbol = [];
}

abbrev pub feed : List MarketMessage
feed =
    message add 1 buy 100 10
    ∷ message add 2 buy 101 5
    ∷ message add 3 sell 105 7
    ∷ message add 4 buy 100 3
    ∷ message trade 2 buy 0 9
    ∷ message modify 1 buy 0 6
    ∷ []

abbrev pub resting : Resting
resting =
    record { order_id = 1; price = pos 100; quantity = 6; side = buy }
    ∷ record { order_id = 3; price = pos 105; quantity = 7; side = sell }
    ∷ record { order_id = 4; price = pos 100; quantity = 3; side = buy }
    ∷ []

abbrev pub bid : PriceLevel
bid = record { price = pos 100; order_ids = 1 ∷ 4 ∷ []; total_quantity = 9 }

abbrev pub ask : PriceLevel
ask = record { price = pos 105; order_ids = 3 ∷ []; total_quantity = 7 }

abbrev pub book : OrderBook
book = record {
  bids = (pos 100, bid) ∷ [];
  asks = (pos 105, ask) ∷ [];
  order_map =
      (1, record { order_id = 1; price = pos 100; quantity = 6; side = buy })
      ∷ (3, record { order_id = 3; price = pos 105; quantity = 7; side = sell })
      ∷ (4, record { order_id = 4; price = pos 100; quantity = 3; side = buy })
      ∷ [];
}

-- The feed on a new book, with all that the book computes with open.
unfoldable pub feed_result : Option OrderBook
unfolding process new on_message handle_add handle_modify handle_cancel handle_trade order_of
    add_to_level modify_total modify_level cancel_level trade_level find emplace assign erase
    erase_id is_empty add32 sub32 apply apply_all lookup remove set_quantity ids_at quantity_at
    is_at sum_quantities begin best_bid
feed_result = process new feed

pub feed_words : All IsWord feed
feed_words = omega arith

pub feed_small : StaySmall [] feed
unfolding feed_result
feed_small = StaySmall-of-sum [] feed (omega arith)
