-- ===== src/Arguments/Printed.antt =====
-- The programs read back the arguments that a shell script prints for them.
use latency_lab.Base.{
  ℕ, ◌^◌, ◌<◌, ◌≡◌, refl, ap, ◌∙◌, Bool, true, false, if◌then◌else◌, some, List, [], ◌∷◌, arith,
}
use latency_lab.Base.Int.{ℤ, pos, negsuc, int32}
use latency_lab.Arguments.{
  parsed, parse_u64_arg, parse_int_arg, parse_bool_arg, arg, QueueArguments, queue_arguments,
  TcpArguments, tcp_arguments, UdpArguments, udp_arguments,
}
use latency_lab.Arguments.Decimal.{
  decimal, decimal_int, read_int, read_u64, stoull-decimal_int, stoi-decimal_int,
}

-- What a `std::uint64_t` holds.
abbrev pub IsU64 : ℕ → Type 0
IsU64 n = n < 2 ^ 64

-- What an `int` holds.
abbrev pub IsInt : ℤ → Type 0
IsInt z = int32 z ≡ some z

abbrev pub decimal_bool : Bool → List ℕ
decimal_bool b = decimal (if b then 1 else 0)

-- An argument that prints an integer in decimal is read by parse_int_arg as that integer if an int
-- holds it, and throws out_of_range otherwise; by parse_u64_arg it is read as its residue modulo
-- 2^64 if its magnitude is below 2^64, negative or not, and throws out_of_range otherwise.
pub printed_integers_read :
    (z : ℤ) (fallback : ℕ) (int_fallback : ℤ)
    → (parse_u64_arg (some (decimal_int z)) fallback ≡ read_u64 z)
      × (parse_int_arg (some (decimal_int z)) int_fallback ≡ read_int z)
unfolding parse_u64_arg parse_int_arg
printed_integers_read z fallback int_fallback = (stoull-decimal_int z, stoi-decimal_int z)

pub parse_u64_arg-decimal :
    (n fallback : ℕ) → IsU64 n → parse_u64_arg (some (decimal n)) fallback ≡ parsed n
parse_u64_arg-decimal n fallback h =
    (printed_integers_read (pos n) fallback (pos 0)).0 ∙ ground (arith, h)

parse_int_arg-decimal_int :
    (z fallback : ℤ) → IsInt z → parse_int_arg (some (decimal_int z)) fallback ≡ parsed z
parse_int_arg-decimal_int z fallback h = (printed_integers_read z 0 fallback).1 ∙ ground (arith, h)

parse_bool_arg-decimal_bool :
    (b fallback : Bool) → parse_bool_arg (some (decimal_bool b)) fallback ≡ parsed b
unfolding parse_bool_arg
parse_bool_arg-decimal_bool true fallback = rw (stoi-decimal_int (pos 1)) refl
parse_bool_arg-decimal_bool false fallback = rw (stoi-decimal_int (pos 0)) refl

-- The command line of the programs over the queues.
abbrev pub print_queue_arguments : List ℕ → QueueArguments → List (List ℕ)
print_queue_arguments program a =
    program
    ∷ decimal a.num_messages
    ∷ decimal a.queue_capacity
    ∷ decimal_int a.producer_cpu
    ∷ decimal_int a.consumer_cpu
    ∷ []

abbrev pub print_tcp_arguments : List ℕ → TcpArguments → List (List ℕ)
print_tcp_arguments program a =
    program
    ∷ decimal a.num_messages
    ∷ decimal_bool a.tcp_no_delay
    ∷ decimal_int a.send_buffer_bytes
    ∷ decimal_int a.receive_buffer_bytes
    ∷ decimal_int a.producer_cpu
    ∷ decimal_int a.consumer_cpu
    ∷ []

abbrev pub print_udp_arguments : List ℕ → UdpArguments → List (List ℕ)
print_udp_arguments program a =
    program
    ∷ decimal a.num_messages
    ∷ decimal_int a.send_buffer_bytes
    ∷ decimal_int a.receive_buffer_bytes
    ∷ decimal_int a.producer_cpu
    ∷ decimal_int a.consumer_cpu
    ∷ decimal_int a.receive_timeout_ms
    ∷ []

pub queue_arguments-print_queue_arguments :
    (program : List ℕ) (a : QueueArguments)
    → IsU64 a.num_messages
    → IsU64 a.queue_capacity
    → IsInt a.producer_cpu
    → IsInt a.consumer_cpu
    → queue_arguments (print_queue_arguments program a) ≡ parsed a
unfolding queue_arguments arg
queue_arguments-print_queue_arguments program a messages capacity first second =
    rw
      (
        parse_u64_arg-decimal a.num_messages 1000000 messages,
        parse_u64_arg-decimal a.queue_capacity 65536 capacity,
        parse_int_arg-decimal_int a.producer_cpu (negsuc 0) first,
        parse_int_arg-decimal_int a.consumer_cpu (negsuc 0) second,
      )
      (ap (λ c. parsed (record a { queue_capacity = c })) (omega (arith, capacity)))

-- A command line of apps/benchmark_tcp_feed.cpp that prints a number of messages below 2^64, a flag
-- as 0 or 1, and four ints, in decimal, is read back as those arguments.
pub tcp_arguments-print_tcp_arguments :
    (program : List ℕ) (a : TcpArguments)
    → IsU64 a.num_messages
    → IsInt a.send_buffer_bytes
    → IsInt a.receive_buffer_bytes
    → IsInt a.producer_cpu
    → IsInt a.consumer_cpu
    → tcp_arguments (print_tcp_arguments program a) ≡ parsed a
unfolding tcp_arguments arg
tcp_arguments-print_tcp_arguments program a messages sent received first second =
    rw
      (
        parse_u64_arg-decimal a.num_messages 1000000 messages,
        parse_bool_arg-decimal_bool a.tcp_no_delay true,
        parse_int_arg-decimal_int a.send_buffer_bytes (pos 0) sent,
        parse_int_arg-decimal_int a.receive_buffer_bytes (pos 0) received,
        parse_int_arg-decimal_int a.producer_cpu (negsuc 0) first,
        parse_int_arg-decimal_int a.consumer_cpu (negsuc 0) second,
      )
      refl

pub udp_arguments-print_udp_arguments :
    (program : List ℕ) (a : UdpArguments)
    → IsU64 a.num_messages
    → IsInt a.send_buffer_bytes
    → IsInt a.receive_buffer_bytes
    → IsInt a.producer_cpu
    → IsInt a.consumer_cpu
    → IsInt a.receive_timeout_ms
    → udp_arguments (print_udp_arguments program a) ≡ parsed a
unfolding udp_arguments arg
udp_arguments-print_udp_arguments program a messages sent received first second timeout =
    rw
      (
        parse_u64_arg-decimal a.num_messages 1000000 messages,
        parse_int_arg-decimal_int a.send_buffer_bytes (pos 0) sent,
        parse_int_arg-decimal_int a.receive_buffer_bytes (pos 0) received,
        parse_int_arg-decimal_int a.producer_cpu (negsuc 0) first,
        parse_int_arg-decimal_int a.consumer_cpu (negsuc 0) second,
        parse_int_arg-decimal_int a.receive_timeout_ms (pos 1000) timeout,
      )
      refl
