-- ===== src/Tests/Book.antt =====
-- The order book's theorems on the small feed.
use latency_lab.Base.{◌≡◌, refl, ◌^◌, none, some, [], arith}
use latency_lab.Base.Int.{pos}
use latency_lab.Message.{buy, sell, add, modify, cancel}
use latency_lab.Level.{greater}
use latency_lab.OrderBook.{OrderBook, new, process, on_message, handle_add, handle_cancel, best_bid}
use latency_lab.OrderBook.Represents.{Represents}
use latency_lab.OrderBook.Refinement.{
  new-Represents, process-Represents, process-defined, on_message-Represents, on_message-overflow,
}
use latency_lab.OrderBook.Queries.{IsBest, best_bid-IsBest}
use latency_lab.OrderBook.Unique.{handle_cancel-handle_add}
use latency_lab.Resting.{apply, apply_all}
use latency_lab.Tests.Feed.{feed_result, message, feed, resting, book, feed_words, feed_small}

-- The feed run on a new book.
feed_runs : process new feed ≡ some book
unfolding feed_result
feed_runs = refl

feed-resting : apply_all feed [] ≡ resting
unfolding feed_result
feed-resting = refl

book-Represents : Represents book resting
unfolding feed_result
book-Represents = process-Represents new book [] feed new-Represents feed_words refl

on_message-Represents_example :
    Represents
      (handle_cancel book (message cancel 1 buy 0 0))
      (apply (message cancel 1 buy 0 0) resting)
unfolding on_message
on_message-Represents_example =
    on_message-Represents book (handle_cancel book (message cancel 1 buy 0 0)) resting
      (message cancel 1 buy 0 0) book-Represents (omega arith) refl

process-defined_example :
    (b' : OrderBook) × (process new feed ≡ some b') × Represents b' (apply_all feed [])
process-defined_example = process-defined new [] feed new-Represents feed_words feed_small

process-Represents_example : Represents book (apply_all feed [])
process-Represents_example = process-Represents new book [] feed new-Represents feed_words feed_runs

on_message-overflow_example : on_message book (message modify 1 buy 0 (2 ^ 31)) ≡ none
unfolding feed_result
on_message-overflow_example =
    on_message-overflow book resting (message modify 1 buy 0 (2 ^ 31))
      (record { order_id = 1; price = pos 100; quantity = 6; side = buy }) book-Represents
      (omega arith) refl refl (omega arith) (omega arith) (omega arith)

best_bid-IsBest_example : IsBest greater buy resting (best_bid book)
best_bid-IsBest_example = best_bid-IsBest book resting book-Represents

handle_cancel-handle_add_example :
    handle_cancel (handle_add book (message add 9 sell 105 4)) (message cancel 9 buy 0 0) ≡ book
unfolding feed_result
handle_cancel-handle_add_example =
    handle_cancel-handle_add book resting (message add 9 sell 105 4) (message cancel 9 buy 0 0)
      book-Represents (omega arith) refl refl
