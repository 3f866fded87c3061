-- ===== src/Endpoints/Leaks.antt =====
-- No descriptor is lost: what is opened is returned or closed.
use latency_lab.Base.{
  ℕ, ◌^◌, ◌%◌, ◌≡◌, refl, ◌∙◌, ap, Bool, true, false, Bool-cases, inl, inr, List, ◌∷◌, arith,
}
use latency_lab.Base.Int.{ℤ, pos, ltb_ℤ, eqb_ℤ}
use latency_lab.Sockets.System.{
  System, sock_stream, sock_dgram, so_reuseaddr, so_rcvtimeo, remove_fd, set_tcp_no_delay,
  set_socket_send_buffer, set_socket_receive_buffer, get_bound_port, close_socket,
}
use latency_lab.Endpoints.{
  Outcome, returned, threw, loopback_port_auto, quot, rem, times, create_tcp_listener,
  connect_tcp_client, create_udp_receiver, create_udp_sender, bound_port, open_tcp, open_udp,
}

remove_fd_head : (fd : ℤ) (fds : List ℤ) → remove_fd fd (fd ∷ fds) ≡ fds
remove_fd_head fd fds = ground arith

module _ {S : Type 0} (sys : System S) where
  -- From the state `s`: a descriptor was opened and returned, or none is left open.
  abbrev pub IsClean : S → Outcome ℤ × S → Type 0
  IsClean s (returned fd, s') = (ltb_ℤ fd (pos 0) ≡ false) × (sys.open_fds s' ≡ fd ∷ sys.open_fds s)
  IsClean s (threw failure, s') = sys.open_fds s' ≡ sys.open_fds s

  send_buffer_fds :
      (s : S) (fd bytes : ℤ)
      → sys.open_fds (set_socket_send_buffer sys s fd bytes).1 ≡ sys.open_fds s
  unfolding set_socket_send_buffer
  send_buffer_fds s fd bytes = elim (Bool-cases (ltb_ℤ (pos 0) bytes)) [
    | inl more ↦ rw (more, set_socket_send_buffer) (sys.setsockopt_fds s fd _)
    | inr none ↦ rw (none, set_socket_send_buffer) refl
  ]

  receive_buffer_fds :
      (s : S) (fd bytes : ℤ)
      → sys.open_fds (set_socket_receive_buffer sys s fd bytes).1 ≡ sys.open_fds s
  unfolding set_socket_receive_buffer
  receive_buffer_fds s fd bytes = elim (Bool-cases (ltb_ℤ (pos 0) bytes)) [
    | inl more ↦ rw (more, set_socket_receive_buffer) (sys.setsockopt_fds s fd _)
    | inr none ↦ rw (none, set_socket_receive_buffer) refl
  ]

  no_delay_fds :
      (s : S) (fd : ℤ) (enabled : Bool)
      → sys.open_fds (set_tcp_no_delay sys s fd enabled).1 ≡ sys.open_fds s
  unfolding set_tcp_no_delay
  no_delay_fds s fd enabled = sys.setsockopt_fds s fd _

  -- An open descriptor at the head is closed.
  closed_fds :
      (s : S) (fd : ℤ) (fds : List ℤ)
      → ltb_ℤ fd (pos 0) ≡ false
      → sys.open_fds s ≡ fd ∷ fds
      → sys.open_fds (close_socket sys s fd) ≡ fds
  unfolding close_socket
  closed_fds s fd fds valid h =
      rw (valid, close_socket) (sys.close_fds s fd ∙ ap (remove_fd fd) h ∙ remove_fd_head fd fds)

  create_tcp_listener-IsClean : (s : S) (bytes : ℤ) → IsClean s (create_tcp_listener sys s bytes)
  unfolding create_tcp_listener
  create_tcp_listener-IsClean s bytes =
      let fd = (sys.socket s sock_stream).0 in
      let s₁ = (sys.socket s sock_stream).1 in
      let s₂ = (sys.setsockopt s₁ fd (so_reuseaddr (pos 1))).1 in
      let s₃ = (set_socket_receive_buffer sys s₂ fd bytes).1 in
      let s₄ = (sys.bind s₃ fd loopback_port_auto).1 in
      let s₅ = (sys.listen s₄ fd 1).1 in
      elim (Bool-cases (ltb_ℤ fd (pos 0))) [
        | inl bad ↦ rw (bad, create_tcp_listener) (sys.socket_failed s sock_stream bad)
        | inr good ↦
            let at₄ : sys.open_fds s₄ ≡ fd ∷ sys.open_fds s =
              sys.bind_fds s₃ fd loopback_port_auto
              ∙ receive_buffer_fds s₂ fd bytes
              ∙ sys.setsockopt_fds s₁ fd (so_reuseaddr (pos 1))
              ∙ sys.socket_opened s sock_stream good in
            let at₅ : sys.open_fds s₅ ≡ fd ∷ sys.open_fds s = sys.listen_fds s₄ fd 1 ∙ at₄ in
            elim (Bool-cases (eqb_ℤ (sys.bind s₃ fd loopback_port_auto).0 (pos 0))) [
              | inr unbound ↦ rw (good, unbound, create_tcp_listener) (closed_fds s₄ fd _ good at₄)
              | inl bound ↦ elim (Bool-cases (eqb_ℤ (sys.listen s₄ fd 1).0 (pos 0))) [
                | inr deaf ↦
                    rw (good, bound, deaf, create_tcp_listener) (closed_fds s₅ fd _ good at₅)
                | inl listening ↦ rw (good, bound, listening, create_tcp_listener) (good, at₅)
              ]
            ]
      ]

  connect_tcp_client-IsClean :
      (s : S) (port : ℕ) (tcp_no_delay : Bool) (bytes : ℤ)
      → IsClean s (connect_tcp_client sys s port tcp_no_delay bytes)
  unfolding connect_tcp_client
  connect_tcp_client-IsClean s port tcp_no_delay bytes =
      let fd = (sys.socket s sock_stream).0 in
      let s₁ = (sys.socket s sock_stream).1 in
      let s₂ = (set_tcp_no_delay sys s₁ fd tcp_no_delay).1 in
      let s₃ = (set_socket_send_buffer sys s₂ fd bytes).1 in
      let s₄ = (sys.connect s₃ fd (port % 2 ^ 16)).1 in
      elim (Bool-cases (ltb_ℤ fd (pos 0))) [
        | inl bad ↦ rw (bad, connect_tcp_client) (sys.socket_failed s sock_stream bad)
        | inr good ↦
            let at₄ : sys.open_fds s₄ ≡ fd ∷ sys.open_fds s =
              sys.connect_fds s₃ fd (port % 2 ^ 16)
              ∙ send_buffer_fds s₂ fd bytes
              ∙ no_delay_fds s₁ fd tcp_no_delay
              ∙ sys.socket_opened s sock_stream good in
            elim (Bool-cases (eqb_ℤ (sys.connect s₃ fd (port % 2 ^ 16)).0 (pos 0))) [
              | inr refused ↦ rw (good, refused, connect_tcp_client) (closed_fds s₄ fd _ good at₄)
              | inl connected ↦ rw (good, connected, connect_tcp_client) (good, at₄)
            ]
      ]

  create_udp_receiver-IsClean :
      (s : S) (bytes timeout_ms : ℤ) → IsClean s (create_udp_receiver sys s bytes timeout_ms)
  unfolding create_udp_receiver
  create_udp_receiver-IsClean s bytes timeout_ms =
      let fd = (sys.socket s sock_dgram).0 in
      let s₁ = (sys.socket s sock_dgram).1 in
      let s₂ = (set_socket_receive_buffer sys s₁ fd bytes).1 in
      let timeout = so_rcvtimeo (quot timeout_ms 1000) (times (rem timeout_ms 1000) 1000) in
      let s₃ = (sys.setsockopt s₂ fd timeout).1 in
      let s₄ = (sys.bind s₃ fd loopback_port_auto).1 in
      elim (Bool-cases (ltb_ℤ fd (pos 0))) [
        | inl bad ↦ rw (bad, create_udp_receiver) (sys.socket_failed s sock_dgram bad)
        | inr good ↦
            let at₄ : sys.open_fds s₄ ≡ fd ∷ sys.open_fds s =
              sys.bind_fds s₃ fd loopback_port_auto
              ∙ sys.setsockopt_fds s₂ fd timeout
              ∙ receive_buffer_fds s₁ fd bytes
              ∙ sys.socket_opened s sock_dgram good in
            elim (Bool-cases (eqb_ℤ (sys.bind s₃ fd loopback_port_auto).0 (pos 0))) [
              | inr unbound ↦ rw (good, unbound, create_udp_receiver) (closed_fds s₄ fd _ good at₄)
              | inl bound ↦ rw (good, bound, create_udp_receiver) (good, at₄)
            ]
      ]

  create_udp_sender-IsClean : (s : S) (bytes : ℤ) → IsClean s (create_udp_sender sys s bytes)
  unfolding create_udp_sender
  create_udp_sender-IsClean s bytes =
      let fd = (sys.socket s sock_dgram).0 in
      let s₁ = (sys.socket s sock_dgram).1 in
      elim (Bool-cases (ltb_ℤ fd (pos 0))) [
        | inl bad ↦ rw (bad, create_udp_sender) (sys.socket_failed s sock_dgram bad)
        | inr good ↦
            rw (good, create_udp_sender)
              (good, send_buffer_fds s₁ fd bytes ∙ sys.socket_opened s sock_dgram good)
      ]

  -- The same for what `main` goes on with, which has a port too.
  abbrev pub IsCleanPort : S → Outcome (ℤ × ℤ) × S → Type 0
  IsCleanPort s (returned (fd, port), s') =
      (ltb_ℤ (pos 0) port ≡ true) × (sys.open_fds s' ≡ fd ∷ sys.open_fds s)
  IsCleanPort s (threw failure, s') = sys.open_fds s' ≡ sys.open_fds s

  bound_port-IsCleanPort :
      (s : S) (r : Outcome ℤ × S) → IsClean s r → IsCleanPort s (bound_port sys r)
  bound_port-IsCleanPort s (threw failure, s') v = v
  bound_port-IsCleanPort s (returned fd, s') (valid, h) =
      elim (Bool-cases (ltb_ℤ (pos 0) (get_bound_port sys s' fd))) [
        | inl found ↦ rw found (found, h)
        | inr unknown ↦ rw unknown (closed_fds s' fd (sys.open_fds s) valid h)
      ]

  -- By the laws of Sockets.System, each of create_tcp_listener, connect_tcp_client,
  -- create_udp_receiver and create_udp_sender returns a descriptor that is now open besides those
  -- that were, or throws with none left open; and so do both mains up to their port, which is
  -- positive where they go on.
  pub no_fd_leaks :
      (s : S) (port : ℕ) (tcp_no_delay : Bool) (bytes timeout_ms : ℤ)
      → IsClean s (create_tcp_listener sys s bytes)
        × IsClean s (connect_tcp_client sys s port tcp_no_delay bytes)
        × IsClean s (create_udp_receiver sys s bytes timeout_ms)
        × IsClean s (create_udp_sender sys s bytes)
        × IsCleanPort s (open_tcp sys s bytes)
        × IsCleanPort s (open_udp sys s bytes timeout_ms)
  unfolding open_tcp open_udp
  no_fd_leaks s port tcp_no_delay bytes timeout_ms = (
    create_tcp_listener-IsClean s bytes,
    connect_tcp_client-IsClean s port tcp_no_delay bytes,
    create_udp_receiver-IsClean s bytes timeout_ms,
    create_udp_sender-IsClean s bytes,
    bound_port-IsCleanPort s _ (create_tcp_listener-IsClean s bytes),
    bound_port-IsCleanPort s _ (create_udp_receiver-IsClean s bytes timeout_ms),
  )
