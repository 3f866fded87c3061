-- ===== src/Endpoints.antt =====
-- How apps/benchmark_tcp_feed.cpp and apps/benchmark_udp_feed.cpp open their sockets, with the exceptions
-- as values, over the system calls of Sockets.System.
pub mod Leaks
use latency_lab.Base.{
  ℕ, zero, suc, ◌*◌, ◌+◌, ◌/◌, ◌%◌, ◌^◌, Bool, true, false, not, if◌then◌else◌, List, [], ◌∷◌,
}
use latency_lab.Base.Int.{ℤ, pos, negsuc, ltb_ℤ, eqb_ℤ}
use latency_lab.Sockets.System.{
  System, sock_stream, sock_dgram, so_reuseaddr, so_rcvtimeo, set_tcp_no_delay,
  set_socket_send_buffer, set_socket_receive_buffer, get_bound_port, close_socket,
}

-- Which `std::runtime_error`.
pub data Failure : Type 0 where
  socket_error bind_error listen_error connect_error port_error : Failure

-- What a function returns, or throws.
pub data Outcome (A : Type 0) : Type 0 where
  returned : A → Outcome A
  threw : Failure → Outcome A

-- `loopback_port_auto`
abbrev pub loopback_port_auto : ℕ
loopback_port_auto = 0

-- The integer -n.
abbrev pub negative : ℕ → ℤ
negative zero = pos 0
negative (suc m) = negsuc m

-- `/` and `%` of C++ on an int and a positive number, which round to 0.
abbrev pub quot : ℤ → ℕ → ℤ
quot (pos n) d = pos (n / d)
quot (negsuc n) d = negative ((n + 1) / d)

abbrev pub rem : ℤ → ℕ → ℤ
rem (pos n) d = pos (n % d)
rem (negsuc n) d = negative ((n + 1) % d)

abbrev pub times : ℤ → ℕ → ℤ
times (pos n) k = pos (n * k)
times (negsuc n) k = negative ((n + 1) * k)

module _ {S : Type 0} (sys : System S) where
  unfoldable pub create_tcp_listener : S → ℤ → Outcome ℤ × S
  create_tcp_listener s receive_buffer_bytes =
      let (fd, s₁) = sys.socket s sock_stream in
      if ltb_ℤ fd (pos 0)
      then (threw socket_error, s₁)
      else (let s₂ = (sys.setsockopt s₁ fd (so_reuseaddr (pos 1))).1 in
          let s₃ = (set_socket_receive_buffer sys s₂ fd receive_buffer_bytes).1 in
          let (bound, s₄) = sys.bind s₃ fd loopback_port_auto in
          if not (eqb_ℤ bound (pos 0))
          then (threw bind_error, close_socket sys s₄ fd)
          else (let (listening, s₅) = sys.listen s₄ fd 1 in
              if not (eqb_ℤ listening (pos 0))
              then (threw listen_error, close_socket sys s₅ fd)
              else (returned fd, s₅)))

  unfoldable pub connect_tcp_client : S → ℕ → Bool → ℤ → Outcome ℤ × S
  connect_tcp_client s port tcp_no_delay send_buffer_bytes =
      let (fd, s₁) = sys.socket s sock_stream in
      if ltb_ℤ fd (pos 0)
      then (threw socket_error, s₁)
      else (let s₂ = (set_tcp_no_delay sys s₁ fd tcp_no_delay).1 in
          let s₃ = (set_socket_send_buffer sys s₂ fd send_buffer_bytes).1 in
          let (connected, s₄) = sys.connect s₃ fd (port % 2 ^ 16) in
          if not (eqb_ℤ connected (pos 0))
          then (threw connect_error, close_socket sys s₄ fd)
          else (returned fd, s₄))

  unfoldable pub create_udp_receiver : S → ℤ → ℤ → Outcome ℤ × S
  create_udp_receiver s receive_buffer_bytes timeout_ms =
      let (fd, s₁) = sys.socket s sock_dgram in
      if ltb_ℤ fd (pos 0)
      then (threw socket_error, s₁)
      else (let s₂ = (set_socket_receive_buffer sys s₁ fd receive_buffer_bytes).1 in
          let timeout = so_rcvtimeo (quot timeout_ms 1000) (times (rem timeout_ms 1000) 1000) in
          let s₃ = (sys.setsockopt s₂ fd timeout).1 in
          let (bound, s₄) = sys.bind s₃ fd loopback_port_auto in
          if not (eqb_ℤ bound (pos 0))
          then (threw bind_error, close_socket sys s₄ fd)
          else (returned fd, s₄))

  unfoldable pub create_udp_sender : S → ℤ → Outcome ℤ × S
  create_udp_sender s send_buffer_bytes =
      let (fd, s₁) = sys.socket s sock_dgram in
      if ltb_ℤ fd (pos 0)
      then (threw socket_error, s₁)
      else (returned fd, (set_socket_send_buffer sys s₁ fd send_buffer_bytes).1)

  -- The start of `main` behind the receiving socket: its port, or the end of the program.
  abbrev pub bound_port : Outcome ℤ × S → Outcome (ℤ × ℤ) × S
  bound_port (threw failure, s) = (threw failure, s)
  bound_port (returned fd, s) =
      let port = get_bound_port sys s fd in
      if ltb_ℤ (pos 0) port
      then (returned (fd, port), s)
      else (threw port_error, close_socket sys s fd)

  -- The descriptor on which main receives, and its port.
  unfoldable pub open_tcp : S → ℤ → Outcome (ℤ × ℤ) × S
  open_tcp s receive_buffer_bytes = bound_port (create_tcp_listener s receive_buffer_bytes)

  unfoldable pub open_udp : S → ℤ → ℤ → Outcome (ℤ × ℤ) × S
  open_udp s receive_buffer_bytes timeout_ms =
      bound_port (create_udp_receiver s receive_buffer_bytes timeout_ms)
