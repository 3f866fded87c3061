-- ===== src/Tests/Arguments.antt =====
-- Command lines of the programs, and integers at the bounds of their types.
use latency_lab.Base.{ℕ, ◌-◌, ◌^◌, ◌≡◌, refl, true, some, List, [], ◌∷◌, arith}
use latency_lab.Base.Int.{pos, negsuc}
use latency_lab.Arguments.{
  parsed, invalid_argument, parse_u64_arg, parse_int_arg, stoull, stoull_of, skip_spaces, read_sign,
  read_digits, read_magnitude, TcpArguments, tcp_arguments, arg,
}
use latency_lab.Arguments.Decimal.{decimal_int}
use latency_lab.Arguments.Printed.{
  print_tcp_arguments, tcp_arguments-print_tcp_arguments, printed_integers_read,
}

-- `bench`
abbrev program : List ℕ
program = 98 ∷ 101 ∷ 110 ∷ 99 ∷ 104 ∷ []

abbrev tcp : TcpArguments
tcp = record {
  num_messages = 2 ^ 64 - 1;
  tcp_no_delay = true;
  send_buffer_bytes = pos 65536;
  receive_buffer_bytes = pos 0;
  producer_cpu = negsuc 0;
  consumer_cpu = negsuc (2 ^ 31 - 1);
}

tcp_arguments-print_tcp_arguments_example :
    tcp_arguments (print_tcp_arguments program tcp) ≡ parsed tcp
tcp_arguments-print_tcp_arguments_example =
    tcp_arguments-print_tcp_arguments program tcp (omega arith) refl refl refl refl

-- -1 is a large unsigned number.
printed_integers_read_example :
    (parse_u64_arg (some (decimal_int (negsuc 0))) 1000000 ≡ parsed (2 ^ 64 - 1))
    × (parse_int_arg (some (decimal_int (negsuc 0))) (pos 0) ≡ parsed (negsuc 0))
printed_integers_read_example = printed_integers_read (negsuc 0) 1000000 (pos 0)

-- ` +12x`, `x`, and no arguments
read_tests :
    (stoull (32 ∷ 43 ∷ 49 ∷ 50 ∷ 120 ∷ []) ≡ parsed 12)
    × (stoull (120 ∷ []) ≡ invalid_argument)
    × (tcp_arguments (program ∷ [])
        ≡ parsed (record {
          num_messages = 1000000;
          tcp_no_delay = true;
          send_buffer_bytes = pos 0;
          receive_buffer_bytes = pos 0;
          producer_cpu = negsuc 0;
          consumer_cpu = negsuc 0;
        }))
unfolding stoull stoull_of skip_spaces read_sign read_digits read_magnitude tcp_arguments arg
read_tests = (refl, refl, refl)
