-- ===== src/Lib.antt =====
-- latency_lab: the order books, the object pool, the queues, the message generator and the statistics
-- of a market data laboratory.
--
-- A feed of market messages (Add, Modify, Cancel, Trade) is produced by one thread, passes a bounded
-- queue, and is applied by another to a limit order book. The repository has two books, which are to
-- show the same: one that keeps its orders in a hash map, and one that keeps them in a pool of
-- preallocated slots. The programs under apps run a generated feed through a book on one thread, or
-- through a queue or a socket between two, and print what they measured.
--
-- Where the parts stand:
--   Message                    include/latency_lab/market_message.hpp
--   Level                      Order and PriceLevel of include/latency_lab/order_book.hpp
--   OrderBook                  include/latency_lab/order_book.hpp, src/order_book.cpp
--   ObjectPool                 include/latency_lab/object_pool.hpp
--   PooledOrderBook            include/latency_lab/pooled_order_book.hpp, src/pooled_order_book.cpp
--   SpscRingBuffer             include/latency_lab/spsc_ring_buffer.hpp
--   SpscRingBuffer/Threads     the same, as the interleaved accesses of two threads
--   MutexQueue                 include/latency_lab/mutex_queue.hpp
--   Generator                  include/latency_lab/generator.hpp, src/generator.cpp
--   Metrics                    include/latency_lab/metrics.hpp, src/metrics.cpp
--   Sockets                    send_all and recv_all of src/socket_utils.cpp
--   Sockets/System             the other functions of src/socket_utils.cpp
--   ThreadUtils                src/thread_utils.cpp, and the count of migrations
--   Worker                     what the consumers behind a queue do with an envelope
--   SingleThread               apps/benchmark_single_thread.cpp, apps/benchmark_memory_pool.cpp
--   Batching                   apps/benchmark_batching.cpp
--   Pipeline                   apps/benchmark_spsc_queue.cpp, apps/benchmark_spsc_queue_pooled.cpp
--   ProducerConsumer           apps/benchmark_producer_consumer.cpp
--   FalseSharing               apps/benchmark_false_sharing.cpp
--   Wire                       the bytes of a message
--   Feed                       what the consumers of a socket do with a message
--   Endpoints                  the sockets of the two programs below
--   TcpFeed                    apps/benchmark_tcp_feed.cpp
--   UdpFeed                    apps/benchmark_udp_feed.cpp
--   Arguments                  what the programs read from their command lines
--   Report                     what the programs print at their ends
--   StdMap                     std::map and std::unordered_map, as far as the books use them
--   Resting                    the specification of a book: the orders that rest, as they came
--   Base                       numbers, lists, options, int32_t and uint32_t arithmetic
--   Tests                      runs of the definitions, and the theorems at concrete inputs
--
-- How the model corresponds to the code. A class is a record with the fields of the class, less the
-- trailing underscore; a member function is a function of the same name that takes the object and
-- returns the new one, with the result where there is one. A lambda of a handler (add_to_level,
-- modify_level, cancel_level, trade_level) is a function of its own, and on_side chooses the map to
-- which it is applied. What the language leaves undefined is the result none of an Option: the signed
-- overflow in OrderBook::handle_modify, and in the pooled book a read through a pointer to no object.
-- A std::map is its list of entries in the order of the comparator; so is an std::unordered_map, since
-- the code never iterates over one. A pointer of the pool is the index of its slot. An identifier, a
-- price and a time are unbounded numbers, since the code only compares them; quantities are reduced
-- modulo 2^32, counters and sizes modulo 2^64, as the code does it.
--
-- A book is specified by Resting: the list of the orders that rest, in their order of arrival, and what
-- each message does to it. Represents says what a book has to look like that holds such a list, down to
-- the order of the identifiers in a level. For the pooled book Represents also relates the map of
-- pointers to the slots of the pool.
--
-- The two threads of the ring are taken apart at each access to shared memory, in one order of accesses
-- that both see. Each index has one writer; the weaker orders that the atomics allow are not modelled.
--
-- At the mutex queue a step is what a thread does while it holds the mutex, or one notification outside
-- of it; a thread that waits sleeps until it is notified, or wakes for no reason. In the
-- programs over the ring a step is one call of the ring, one access to producer_done, or the start of a
-- round; in the program over the mutex queue it is what a thread does from one lock of the mutex to
-- the next. What a thread reads of the clock and of the CPUs comes with the event that makes it step, so
-- that the theorems hold for all readings; where they speak of times they say which order of the
-- readings they need.
--
-- A connection is a stream of bytes of which a call takes or gives a part; each end of the TCP program is a
-- loop on its own end, and what the receiving end gets is what the sending end has accepted. A
-- datagram is kept as the message whose bytes it holds; the network loses and reorders datagrams as
-- the schedule says. An exception is a result of its own. A
-- string is the list of its bytes; std::stoull and std::stoi are written out for what the programs give them:
-- spaces, a sign, digits, and what follows, which they ignore.
--
-- Loops are structural recursion over the messages, the slots or the schedule. Four have fuel: the
-- batches, of which there are no more than messages, the loops of send_all and recv_all, which make
-- no more calls than there are bytes and interruptions to come, and the consumer of the TCP program, which
-- makes one round for each message it was asked for. Where the fuel is out they return none.
--
-- Parameters: the clocks are functions of the index, or readings that an event brings; the system
-- calls, and the arithmetic of double, are interfaces with laws (Sockets.Connection, Sockets.System,
-- Metrics.Doubles), for which Tests has an instance each. Hypotheses: the quantity of a message fits a
-- uint32_t (IsWord), its fields their words (IsWire); the open quantity of a level stays below 2^31
-- where the plain book must not overflow (IsSmall, StaySmall) and below 2^32 where the pooled book
-- must not (IsUnwrapped, StayUnwrapped); the ring has fewer than 2^64 slots; there are fewer than 2^53
-- latency samples, which double counts exactly.
--
-- Not modelled: the headings of the reports and the layout of printed numbers; the handshake of accept and
-- connect; exceptions of the allocator.
pub mod Base
pub mod StdMap
pub mod Message
pub mod Level
pub mod OrderBook
pub mod Resting
pub mod SpscRingBuffer
pub mod ObjectPool
pub mod PooledOrderBook
pub mod MutexQueue
pub mod Generator
pub mod ThreadUtils
pub mod Worker
pub mod Pipeline
pub mod ProducerConsumer
pub mod FalseSharing
pub mod Wire
pub mod Feed
pub mod TcpFeed
pub mod UdpFeed
pub mod SingleThread
pub mod Endpoints
pub mod Report
pub mod Sockets
pub mod Metrics
pub mod Arguments
pub mod Batching
pub mod Tests
