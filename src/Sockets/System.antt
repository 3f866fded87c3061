-- ===== src/Sockets/System.antt =====
-- The other functions of src/socket_utils.cpp, on Linux. The system calls are an interface on the state of
-- the process; what a call returns as an int is an integer.
use latency_lab.Base.{
  ℕ, ◌+◌, ◌-◌, ◌/◌, ◌%◌, ◌==◌, ◌≡◌, Bool, true, false, if◌then◌else◌, List, [], ◌∷◌, Option, none,
  some,
}
use latency_lab.Base.Int.{ℤ, pos, negsuc, ltb_ℤ, eqb_ℤ}

pub data SocketKind : Type 0 where
  sock_stream sock_dgram : SocketKind

-- The options that the programs set, with their values.
pub data SocketOption : Type 0 where
  tcp_nodelay so_reuseaddr so_sndbuf so_rcvbuf : ℤ → SocketOption
  so_rcvtimeo : (tv_sec tv_usec : ℤ) → SocketOption

-- The first descriptor of a list that is `fd` goes.
abbrev pub remove_fd : ℤ → List ℤ → List ℤ
remove_fd fd [] = []
remove_fd fd (x ∷ fds) = let rest = remove_fd fd fds in if eqb_ℤ x fd then fds else x ∷ rest

-- The system calls on the states `S`. Addresses are on the loopback interface, by their port.
-- `open_fds` are the open descriptors, and the laws are what POSIX says of them: `socket` returns an error
-- or opens a descriptor, `close` closes one, and no other call opens or closes any.
pub record System (S : Type 0) : Type 0 where
  pub socket : S → SocketKind → ℤ × S
  pub setsockopt : S → ℤ → SocketOption → ℤ × S
  pub bind : S → ℤ → ℕ → ℤ × S
  pub listen : S → ℤ → ℕ → ℤ × S
  pub connect : S → ℤ → ℕ → ℤ × S
  pub getsockname : S → ℤ → Option ℕ
  pub get_flags : S → ℤ → ℤ
  pub set_flags : S → ℤ → ℕ → ℤ × S
  pub close : S → ℤ → S
  pub open_fds : S → List ℤ
  pub socket_failed :
      (s : S) (kind : SocketKind)
      → ltb_ℤ (socket s kind).0 (pos 0) ≡ true
      → open_fds (socket s kind).1 ≡ open_fds s
  pub socket_opened :
      (s : S) (kind : SocketKind)
      → ltb_ℤ (socket s kind).0 (pos 0) ≡ false
      → open_fds (socket s kind).1 ≡ (socket s kind).0 ∷ open_fds s
  pub setsockopt_fds :
      (s : S) (fd : ℤ) (option : SocketOption) → open_fds (setsockopt s fd option).1 ≡ open_fds s
  pub bind_fds : (s : S) (fd : ℤ) (port : ℕ) → open_fds (bind s fd port).1 ≡ open_fds s
  pub listen_fds : (s : S) (fd : ℤ) (backlog : ℕ) → open_fds (listen s fd backlog).1 ≡ open_fds s
  pub connect_fds : (s : S) (fd : ℤ) (port : ℕ) → open_fds (connect s fd port).1 ≡ open_fds s
  pub close_fds : (s : S) (fd : ℤ) → open_fds (close s fd) ≡ remove_fd fd (open_fds s)
  pub set_flags_kept :
      (s : S) (fd : ℤ) (flags : ℕ)
      → eqb_ℤ (set_flags s fd flags).0 (pos 0) ≡ true
      → get_flags (set_flags s fd flags).1 fd ≡ pos flags

-- `O_NONBLOCK`, one bit of the flags, and the flags with it set and cleared.
abbrev pub o_nonblock : ℕ
o_nonblock = 2048

abbrev pub is_non_blocking : ℕ → Bool
is_non_blocking flags = flags / o_nonblock % 2 == 1

abbrev pub with_non_blocking : Bool → ℕ → ℕ
with_non_blocking true flags = if is_non_blocking flags then flags else flags + o_nonblock
with_non_blocking false flags = if is_non_blocking flags then flags - o_nonblock else flags

module _ {S : Type 0} (sys : System S) where
  unfoldable pub set_tcp_no_delay : S → ℤ → Bool → Bool × S
  set_tcp_no_delay s fd enabled =
      let r = sys.setsockopt s fd (tcp_nodelay (if enabled then pos 1 else pos 0)) in
      (eqb_ℤ r.0 (pos 0), r.1)

  unfoldable pub set_socket_send_buffer : S → ℤ → ℤ → Bool × S
  set_socket_send_buffer s fd bytes =
      if ltb_ℤ (pos 0) bytes
      then (let r = sys.setsockopt s fd (so_sndbuf bytes) in (eqb_ℤ r.0 (pos 0), r.1))
      else (true, s)

  unfoldable pub set_socket_receive_buffer : S → ℤ → ℤ → Bool × S
  set_socket_receive_buffer s fd bytes =
      if ltb_ℤ (pos 0) bytes
      then (let r = sys.setsockopt s fd (so_rcvbuf bytes) in (eqb_ℤ r.0 (pos 0), r.1))
      else (true, s)

  abbrev pub update_flags : ℤ → S → ℤ → Bool → Bool × S
  update_flags (pos flags) s fd enabled =
      let r = sys.set_flags s fd (with_non_blocking enabled flags) in (eqb_ℤ r.0 (pos 0), r.1)
  update_flags (negsuc n) s fd enabled = (false, s)

  unfoldable pub set_non_blocking : S → ℤ → Bool → Bool × S
  set_non_blocking s fd enabled = update_flags (sys.get_flags s fd) s fd enabled

  unfoldable pub get_bound_port : S → ℤ → ℤ
  get_bound_port s fd = elim (sys.getsockname s fd) [ none ↦ negsuc 0 | some port ↦ pos port ]

  unfoldable pub close_socket : S → ℤ → S
  close_socket s fd = if ltb_ℤ fd (pos 0) then s else sys.close s fd
