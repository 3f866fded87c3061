-- ===== src/Tests/Setup.antt =====
-- The programs on one thread, and sockets on a small system.
use latency_lab.Base.{ℕ, suc, ◌+◌, ◌≡◌, refl, Bool, true, false, List, [], ◌∷◌, ◌++◌, some, arith}
use latency_lab.Base.Int.{ℤ, pos, negsuc, ltb_ℤ}
use latency_lab.OrderBook.{OrderBook}
use latency_lab.OrderBook.Represents.{Represents}
use latency_lab.Resting.{apply_all}
use latency_lab.Generator.Ranges.{generated}
use latency_lab.Sockets.System.{
  System, remove_fd, set_socket_receive_buffer, close_socket, set_non_blocking,
}
use latency_lab.SingleThread.{single_thread}
use latency_lab.SingleThread.Runs.{durations, warm, single_thread-Represents}
use latency_lab.SingleThread.MemoryPool.{BothRun, memory_pool, memory_pool-Agree}
use latency_lab.Arguments.Decimal.{decimal}
use latency_lab.Endpoints.{
  threw, listen_error, create_tcp_listener, connect_tcp_client, create_udp_receiver,
  create_udp_sender, open_tcp, open_udp,
}
use latency_lab.Endpoints.Leaks.{IsClean, IsCleanPort, no_fd_leaks}
use latency_lab.Tests.Benchmarks.{clock, aapl}

-- `./pool 3`
memory_pool-Agree_example :
    BothRun clock
      (λ i. 40 + i)
      (λ i. 30 + i)
      3
      (memory_pool clock
        (λ i. 40 + i)
        (λ i. 30 + i)
        ((112 ∷ 111 ∷ 111 ∷ 108 ∷ []) ∷ decimal 3 ∷ []))
memory_pool-Agree_example =
    memory_pool-Agree clock (λ i. 40 + i) (λ i. 30 + i) (112 ∷ 111 ∷ 111 ∷ 108 ∷ []) 3 (omega arith)

single_thread-Represents_example :
    let msgs = generated clock 3 aapl in
    (b : OrderBook) × (single_thread (λ i. 40 + i) msgs
      ≡ some (b, record { samples = durations (λ i. 40 + i) 0 msgs }))
    × Represents b (apply_all (warm msgs ++ msgs) [])
single_thread-Represents_example = single_thread-Represents clock 3 aapl (λ i. 40 + i)

-- Descriptors are numbered; `answers` says which calls succeed, behind its end all do.
record Small : Type 0 where
  fds : List ℤ
  next : ℕ
  answers : List Bool
  flags : ℕ

abbrev answer : List Bool → Small → ℤ × Small
answer [] s = (pos 0, s)
answer (true ∷ rest) s = (pos 0, record s { answers = rest })
answer (false ∷ rest) s = (negsuc 0, record s { answers = rest })

abbrev open_next : List Bool → Small → ℤ × Small
open_next [] s = (pos s.next, record s { fds = pos s.next ∷ s.fds; next = suc s.next })
open_next (true ∷ rest) s =
    (pos s.next, record s { fds = pos s.next ∷ s.fds; next = suc s.next; answers = rest })
open_next (false ∷ rest) s = (negsuc 0, record s { answers = rest })

answer_fds : (xs : List Bool) (s : Small) → (answer xs s).1.fds ≡ s.fds
answer_fds [] s = refl
answer_fds (true ∷ rest) s = refl
answer_fds (false ∷ rest) s = refl

open_next_failed :
    (xs : List Bool) (s : Small)
    → ltb_ℤ (open_next xs s).0 (pos 0) ≡ true
    → (open_next xs s).1.fds ≡ s.fds
open_next_failed [] s h = absurd (ground (arith, h))
open_next_failed (true ∷ rest) s h = absurd (ground (arith, h))
open_next_failed (false ∷ rest) s h = refl

open_next_opened :
    (xs : List Bool) (s : Small)
    → ltb_ℤ (open_next xs s).0 (pos 0) ≡ false
    → (open_next xs s).1.fds ≡ (open_next xs s).0 ∷ s.fds
open_next_opened [] s h = refl
open_next_opened (true ∷ rest) s h = refl
open_next_opened (false ∷ rest) s h = absurd (ground (arith, h))

abbrev small : System Small
small = record {
  socket = λ s kind. open_next s.answers s;
  setsockopt = λ s fd option. answer s.answers s;
  bind = λ s fd port. answer s.answers s;
  listen = λ s fd backlog. answer s.answers s;
  connect = λ s fd port. answer s.answers s;
  getsockname = λ s fd. some 4000;
  get_flags = λ s fd. pos s.flags;
  set_flags = λ s fd flags. (pos 0, record s { flags = flags });
  close = λ s fd. record s { fds = remove_fd fd s.fds };
  open_fds = λ s. s.fds;
  socket_failed = λ s kind h. open_next_failed s.answers s h;
  socket_opened = λ s kind h. open_next_opened s.answers s h;
  setsockopt_fds = λ s fd option. answer_fds s.answers s;
  bind_fds = λ s fd port. answer_fds s.answers s;
  listen_fds = λ s fd backlog. answer_fds s.answers s;
  connect_fds = λ s fd port. answer_fds s.answers s;
  close_fds = λ s fd. refl;
  set_flags_kept = λ s fd flags h. refl;
}

-- Three descriptors are open, and the fifth call fails.
abbrev running : Small
running = record {
  fds = pos 2 ∷ pos 1 ∷ pos 0 ∷ [];
  next = 3;
  answers = true ∷ true ∷ true ∷ true ∷ false ∷ [];
  flags = 2;
}

-- `listen` fails, and the descriptor is closed.
listen_fails :
    let r = create_tcp_listener small running (pos 8192) in
    (r.0 ≡ threw listen_error) × (r.1.fds ≡ running.fds)
unfolding create_tcp_listener set_socket_receive_buffer close_socket
listen_fails = (refl, refl)

non_blocking_set : (set_non_blocking small running (pos 0) true).1.flags ≡ 2050
unfolding set_non_blocking
non_blocking_set = refl

no_fd_leaks_example :
    IsClean small running (create_tcp_listener small running (pos 8192))
    × IsClean small running (connect_tcp_client small running 4000 true (pos 8192))
    × IsClean small running (create_udp_receiver small running (pos 8192) (pos 1500))
    × IsClean small running (create_udp_sender small running (pos 8192))
    × IsCleanPort small running (open_tcp small running (pos 8192))
    × IsCleanPort small running (open_udp small running (pos 8192) (pos 1500))
no_fd_leaks_example = no_fd_leaks small running 4000 true (pos 8192) (pos 1500)
