-- ===== src/Sockets.antt =====
-- src/socket_utils.cpp: `send_all` and `recv_all`. The system calls `send` and `recv` are a
-- parameter, an operation on the state of a connection.
pub mod Send
pub mod Receive
pub mod System
pub mod Flags
use latency_lab.Base.{
  ℕ, zero, suc, ◌+◌, ◌-◌, ◌<◌, ◌≤◌, ◌≡◌, Bool, true, false, ltb, if◌then◌else◌, List, [], ◌∷◌, ◌++◌,
  Option, none, some, length, take, drop,
}

-- What a system call returns: the number of bytes, which may be 0, an error with EINTR, or another.
pub data SendResult : Type 0 where
  sent : ℕ → SendResult
  send_interrupted send_failed : SendResult

-- The same with the bytes that `recv` has put into the buffer.
pub data RecvResult : Type 0 where
  received : List ℕ → RecvResult
  recv_interrupted recv_failed : RecvResult

-- A connection with the states `S`, after what POSIX says of a stream. `delivered` is what has been accepted for
-- sending, `incoming` what is still to be received. A call transfers no more than it was asked to;
-- a call that fails or is interrupted transfers nothing. `patience`
-- bounds the interruptions to come, which POSIX does not.
pub record Connection (S : Type 0) : Type 0 where
  pub send : S → List ℕ → SendResult × S
  pub recv : S → ℕ → RecvResult × S
  pub delivered : S → List ℕ
  pub incoming : S → List ℕ
  pub patience : S → ℕ
  pub send_sent :
      (s s' : S) (bytes : List ℕ) (n : ℕ)
      → send s bytes ≡ (sent n, s')
      → (n ≤ length bytes)
        × (delivered s' ≡ delivered s ++ take n bytes)
        × (patience s' ≤ patience s)
  pub send_int :
      (s s' : S) (bytes : List ℕ)
      → send s bytes ≡ (send_interrupted, s')
      → (delivered s' ≡ delivered s) × (patience s' < patience s)
  pub send_fail :
      (s s' : S) (bytes : List ℕ) → send s bytes ≡ (send_failed, s') → delivered s' ≡ delivered s
  pub recv_received :
      (s s' : S) (n : ℕ) (bytes : List ℕ)
      → recv s n ≡ (received bytes, s')
      → (length bytes ≤ n) × (incoming s ≡ bytes ++ incoming s') × (patience s' ≤ patience s)
  pub recv_int :
      (s s' : S) (n : ℕ)
      → recv s n ≡ (recv_interrupted, s')
      → (incoming s' ≡ incoming s) × (patience s' < patience s)
  pub recv_fail : (s s' : S) (n : ℕ) → recv s n ≡ (recv_failed, s') → incoming s' ≡ incoming s

module _ {S : Type 0} (c : Connection S) where
  -- The loop of `send_all` with `done` bytes sent; `none` where the fuel is out.
  unfoldable pub send_loop : ℕ → S → List ℕ → ℕ → Option (Bool × S)
  send_loop zero s bytes done = none
  send_loop (suc fuel) s bytes done = elim (ltb done (length bytes)) [
    | false ↦ some (true, s)
    | true ↦
        let (result, s') = c.send s (drop done bytes) in
        elim result [
          | sent n ↦ elim (ltb 0 n) [
            | true ↦ send_loop fuel s' bytes (done + n)
            | false ↦ some (false, s')
          ]
          | send_interrupted ↦ send_loop fuel s' bytes done
          | send_failed ↦ some (false, s')
        ]
  ]

  -- The loop of `recv_all`, with what the buffer holds so far; `none` where the fuel is out.
  unfoldable pub recv_loop : ℕ → S → ℕ → List ℕ → Option (Bool × List ℕ × S)
  recv_loop zero s bytes buffer = none
  recv_loop (suc fuel) s bytes buffer = elim (ltb (length buffer) bytes) [
    | false ↦ some (true, buffer, s)
    | true ↦
        let (result, s') = c.recv s (bytes - length buffer) in
        elim result [
          | received xs ↦ elim (ltb 0 (length xs)) [
            | true ↦ recv_loop fuel s' bytes (buffer ++ xs)
            | false ↦ some (false, buffer, s')
          ]
          | recv_interrupted ↦ recv_loop fuel s' bytes buffer
          | recv_failed ↦ some (false, buffer, s')
        ]
  ]

  -- `send_all` makes at most one call for each byte and each interruption.
  unfoldable pub send_all : S → List ℕ → Option (Bool × S)
  send_all s bytes = send_loop (suc (length bytes + c.patience s)) s bytes 0

  unfoldable pub recv_all : S → ℕ → Option (Bool × List ℕ × S)
  recv_all s bytes = recv_loop (suc (bytes + c.patience s)) s bytes []
