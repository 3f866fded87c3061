-- ===== src/TcpFeed/Stream.antt =====
-- The bytes of a feed.
use latency_lab.Base.{ℕ, List, [], ◌∷◌, ◌++◌}
use latency_lab.Message.{MarketMessage}
use latency_lab.Wire.{encode}

unfoldable pub stream : List MarketMessage → List ℕ
stream [] = []
stream (m ∷ ms) = encode m ++ stream ms
