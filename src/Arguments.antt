-- ===== src/Arguments.antt =====
-- How the programs under apps read their arguments: parse_u64_arg, parse_int_arg and parse_bool_arg, over
-- std::stoull and std::stoi, and the start of each main. A string is the list of its bytes. The
-- exceptions of the standard library are values.
pub mod Decimal
pub mod Printed
use latency_lab.Base.{
  ℕ, zero, suc, ◌+◌, ◌-◌, ◌*◌, ◌%◌, ◌^◌, Bool, true, false, not, ◌&&◌, ◌||◌, if◌then◌else◌, ◌==◌,
  ltb, leb, Option, none, some, List, [], ◌∷◌, length, get_elem?,
}
use latency_lab.Base.Int.{ℤ, pos, negsuc, eqb_ℤ}

-- What `std::stoull` and `std::stoi` return, or which exception they throw.
pub data Parsed (A : Type 0) : Type 0 where
  parsed : A → Parsed A
  invalid_argument out_of_range : Parsed A

infixl 5 ◌>>=◌
abbrev pub ◌>>=◌ : {A B : Type 0} → Parsed A → (A → Parsed B) → Parsed B
parsed a >>= f = f a
invalid_argument >>= f = invalid_argument
out_of_range >>= f = out_of_range

-- `std::isspace` in the C locale
abbrev pub is_space : ℕ → Bool
is_space c = (c == 32) || (leb 9 c && leb c 13)

abbrev pub is_digit : ℕ → Bool
is_digit c = leb 48 c && leb c 57

unfoldable pub skip_spaces : List ℕ → List ℕ
skip_spaces [] = []
skip_spaces (c ∷ cs) = let rest = skip_spaces cs in if is_space c then rest else c ∷ cs

-- The sign, which is true for `-`, and what follows it.
unfoldable pub read_sign : List ℕ → Bool × List ℕ
read_sign [] = (false, [])
read_sign (c ∷ cs) =
    if c == 45 then (true, cs) else if c == 43 then (false, cs) else (false, c ∷ cs)

-- The number that the digits in front make behind those that made `n`; what follows them is ignored.
unfoldable pub read_digits : ℕ → List ℕ → ℕ
read_digits n [] = n
read_digits n (c ∷ cs) =
    let rest = read_digits (n * 10 + (c - 48)) cs in if is_digit c then rest else n

-- None where there is no digit.
unfoldable pub read_magnitude : List ℕ → Option ℕ
read_magnitude [] = none
read_magnitude (c ∷ cs) = if is_digit c then some (read_digits 0 (c ∷ cs)) else none

-- `strtoull` negates in its own type: `-1` is 2^64 - 1.
unfoldable pub stoull_of : Bool → Option ℕ → Parsed ℕ
stoull_of negative none = invalid_argument
stoull_of negative (some n) =
    if ltb n (2 ^ 64) then parsed (if negative then (2 ^ 64 - n) % 2 ^ 64 else n) else out_of_range

unfoldable pub stoull : List ℕ → Parsed ℕ
stoull value =
    let (negative, rest) = read_sign (skip_spaces value) in stoull_of negative (read_magnitude rest)

abbrev pub signed : Bool → ℕ → ℤ
signed true (suc n) = negsuc n
signed negative n = pos n

unfoldable pub stoi_of : Bool → Option ℕ → Parsed ℤ
stoi_of negative none = invalid_argument
stoi_of negative (some n) =
    if leb n (if negative then 2 ^ 31 else 2 ^ 31 - 1)
    then parsed (signed negative n)
    else out_of_range

unfoldable pub stoi : List ℕ → Parsed ℤ
stoi value =
    let (negative, rest) = read_sign (skip_spaces value) in stoi_of negative (read_magnitude rest)

-- None is `nullptr`.
unfoldable pub parse_u64_arg : Option (List ℕ) → ℕ → Parsed ℕ
parse_u64_arg none fallback = parsed fallback
parse_u64_arg (some value) fallback = stoull value

unfoldable pub parse_int_arg : Option (List ℕ) → ℤ → Parsed ℤ
parse_int_arg none fallback = parsed fallback
parse_int_arg (some value) fallback = stoi value

unfoldable pub parse_bool_arg : Option (List ℕ) → Bool → Parsed Bool
parse_bool_arg none fallback = parsed fallback
parse_bool_arg (some value) fallback = do n ← stoi value; parsed (not (eqb_ℤ n (pos 0)))

-- `argc > i ? parse(argv[i], fallback) : fallback`; the list is `argv`, with the name of the program.
unfoldable pub arg :
    {A : Type 0} → (Option (List ℕ) → A → Parsed A) → List (List ℕ) → ℕ → A → Parsed A
arg parse argv i fallback =
    if ltb i (length argv) then parse (get_elem? argv i) fallback else parsed fallback

-- The arguments of the programs over the queues. Only the pooled one reads `pool_capacity`.
pub record QueueArguments : Type 0 where
  pub num_messages : ℕ
  pub queue_capacity : ℕ
  pub producer_cpu : ℤ
  pub consumer_cpu : ℤ

-- apps/benchmark_spsc_queue.cpp and apps/benchmark_producer_consumer.cpp
unfoldable pub queue_arguments : List (List ℕ) → Parsed QueueArguments
queue_arguments argv = do
  num_messages ← arg parse_u64_arg argv 1 1000000
  queue_capacity_arg ← arg parse_u64_arg argv 2 65536
  producer_cpu ← arg parse_int_arg argv 3 (negsuc 0)
  consumer_cpu ← arg parse_int_arg argv 4 (negsuc 0)
  parsed (record {
    num_messages = num_messages;
    queue_capacity = queue_capacity_arg % 2 ^ 64;
    producer_cpu = producer_cpu;
    consumer_cpu = consumer_cpu;
  })

-- apps/benchmark_spsc_queue_pooled.cpp, with `pool_capacity`
unfoldable pub pooled_queue_arguments : List (List ℕ) → Parsed (QueueArguments × ℕ)
pooled_queue_arguments argv = do
  a ← queue_arguments argv
  pool_capacity ← arg parse_u64_arg argv 5 a.num_messages
  parsed (a, pool_capacity)

-- apps/benchmark_memory_pool.cpp: `num_messages` and `pool_capacity`
unfoldable pub memory_pool_arguments : List (List ℕ) → Parsed (ℕ × ℕ)
memory_pool_arguments argv = do
  num_messages ← arg parse_u64_arg argv 1 1000000
  pool_capacity ← arg parse_u64_arg argv 2 num_messages
  parsed (num_messages, pool_capacity)

-- apps/benchmark_single_thread.cpp
unfoldable pub single_thread_arguments : List (List ℕ) → Parsed ℕ
single_thread_arguments [] = parsed 1000000
single_thread_arguments (program ∷ []) = parsed 1000000
single_thread_arguments (program ∷ value ∷ more) = stoull value

-- apps/benchmark_false_sharing.cpp
unfoldable pub false_sharing_arguments : List (List ℕ) → Parsed (ℕ × ℤ × ℤ)
false_sharing_arguments argv = do
  iterations ← arg parse_u64_arg argv 1 100000000
  first_cpu ← arg parse_int_arg argv 2 (negsuc 0)
  second_cpu ← arg parse_int_arg argv 3 (negsuc 0)
  parsed (iterations, first_cpu, second_cpu)

pub record TcpArguments : Type 0 where
  pub num_messages : ℕ
  pub tcp_no_delay : Bool
  pub send_buffer_bytes : ℤ
  pub receive_buffer_bytes : ℤ
  pub producer_cpu : ℤ
  pub consumer_cpu : ℤ

-- apps/benchmark_tcp_feed.cpp
unfoldable pub tcp_arguments : List (List ℕ) → Parsed TcpArguments
tcp_arguments argv = do
  num_messages ← arg parse_u64_arg argv 1 1000000
  tcp_no_delay ← arg parse_bool_arg argv 2 true
  send_buffer_bytes ← arg parse_int_arg argv 3 (pos 0)
  receive_buffer_bytes ← arg parse_int_arg argv 4 (pos 0)
  producer_cpu ← arg parse_int_arg argv 5 (negsuc 0)
  consumer_cpu ← arg parse_int_arg argv 6 (negsuc 0)
  parsed (record {
    num_messages = num_messages;
    tcp_no_delay = tcp_no_delay;
    send_buffer_bytes = send_buffer_bytes;
    receive_buffer_bytes = receive_buffer_bytes;
    producer_cpu = producer_cpu;
    consumer_cpu = consumer_cpu;
  })

pub record UdpArguments : Type 0 where
  pub num_messages : ℕ
  pub send_buffer_bytes : ℤ
  pub receive_buffer_bytes : ℤ
  pub producer_cpu : ℤ
  pub consumer_cpu : ℤ
  pub receive_timeout_ms : ℤ

-- apps/benchmark_udp_feed.cpp
unfoldable pub udp_arguments : List (List ℕ) → Parsed UdpArguments
udp_arguments argv = do
  num_messages ← arg parse_u64_arg argv 1 1000000
  send_buffer_bytes ← arg parse_int_arg argv 2 (pos 0)
  receive_buffer_bytes ← arg parse_int_arg argv 3 (pos 0)
  producer_cpu ← arg parse_int_arg argv 4 (negsuc 0)
  consumer_cpu ← arg parse_int_arg argv 5 (negsuc 0)
  receive_timeout_ms ← arg parse_int_arg argv 6 (pos 1000)
  parsed (record {
    num_messages = num_messages;
    send_buffer_bytes = send_buffer_bytes;
    receive_buffer_bytes = receive_buffer_bytes;
    producer_cpu = producer_cpu;
    consumer_cpu = consumer_cpu;
    receive_timeout_ms = receive_timeout_ms;
  })
