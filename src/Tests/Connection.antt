-- ===== src/Tests/Connection.antt =====
-- `send_all` and `recv_all` on a connection that follows a plan of interruptions and short transfers.
use latency_lab.Base.{
  ℕ, zero, suc, ◌+◌, ◌≤◌, ◌<◌, ◌≡◌, refl, min, Bool, true, ◌⊎◌, List, [], ◌∷◌, ◌++◌, none, some,
  length, take, drop, take-append-drop, length-take, arith,
}
use latency_lab.Sockets.{
  Connection, SendResult, sent, send_interrupted, send_failed, RecvResult, received,
  recv_interrupted, recv_failed, send_all, recv_all, send_loop, recv_loop,
}
use latency_lab.Sockets.Send.{Sending, Stops, Answers, send_all_ends}

-- The plan says for each call how many bytes it transfers at most; 0 is an interruption. Behind its end
-- a call transfers all that it can.
pub record Planned : Type 0 where
  pub out : List ℕ
  pub coming : List ℕ
  pub plan : List ℕ

abbrev send_by : List ℕ → Planned → List ℕ → SendResult × Planned
send_by [] s bytes = (sent (length bytes), record s { out = s.out ++ take (length bytes) bytes })
send_by (zero ∷ plan) s bytes = (send_interrupted, record s { plan = plan })
send_by (suc n ∷ plan) s bytes =
    let m = min (suc n) (length bytes) in
    (sent m, record s { out = s.out ++ take m bytes; plan = plan })

abbrev recv_by : List ℕ → Planned → ℕ → RecvResult × Planned
recv_by [] s n =
    let m = min n (length s.coming) in
    (received (take m s.coming), record s { coming = drop m s.coming })
recv_by (zero ∷ plan) s n = (recv_interrupted, record s { plan = plan })
recv_by (suc k ∷ plan) s n =
    let m = min (min (suc k) n) (length s.coming) in
    (received (take m s.coming), record s { coming = drop m s.coming; plan = plan })

pub sent_by :
    (plan : List ℕ) (s s' : Planned) (bytes : List ℕ) (n : ℕ)
    → s.plan ≡ plan
    → send_by plan s bytes ≡ (sent n, s')
    → (n ≤ length bytes) × (s'.out ≡ s.out ++ take n bytes) × (length s'.plan ≤ length s.plan)
sent_by [] s s' bytes n p e = ground (arith, e, p)
sent_by (zero ∷ plan) s s' bytes n p e = ground (arith, e, p)
sent_by (suc k ∷ plan) s s' bytes n p e = ground (arith, e, p)

pub interrupted_by :
    (plan : List ℕ) (s s' : Planned) (bytes : List ℕ)
    → s.plan ≡ plan
    → send_by plan s bytes ≡ (send_interrupted, s')
    → (s'.out ≡ s.out) × (length s'.plan < length s.plan)
interrupted_by [] s s' bytes p e = ground (arith, e, p)
interrupted_by (zero ∷ plan) s s' bytes p e = ground (arith, e, p)
interrupted_by (suc k ∷ plan) s s' bytes p e = ground (arith, e, p)

pub failed_by :
    (plan : List ℕ) (s s' : Planned) (bytes : List ℕ)
    → send_by plan s bytes ≡ (send_failed, s')
    → s'.out ≡ s.out
failed_by [] s s' bytes e = ground (arith, e)
failed_by (zero ∷ plan) s s' bytes e = ground (arith, e)
failed_by (suc k ∷ plan) s s' bytes e = ground (arith, e)

pub received_by :
    (plan : List ℕ) (s s' : Planned) (n : ℕ) (bytes : List ℕ)
    → s.plan ≡ plan
    → recv_by plan s n ≡ (received bytes, s')
    → (length bytes ≤ n) × (s.coming ≡ bytes ++ s'.coming) × (length s'.plan ≤ length s.plan)
received_by [] s s' n bytes p e =
    let m = min n (length s.coming) in
    ground (arith, e, p, length-take m s.coming, take-append-drop m s.coming)
received_by (zero ∷ plan) s s' n bytes p e = ground (arith, e, p)
received_by (suc k ∷ plan) s s' n bytes p e =
    let m = min (min (suc k) n) (length s.coming) in
    ground (arith, e, p, length-take m s.coming, take-append-drop m s.coming)

pub recv_interrupted_by :
    (plan : List ℕ) (s s' : Planned) (n : ℕ)
    → s.plan ≡ plan
    → recv_by plan s n ≡ (recv_interrupted, s')
    → (s'.coming ≡ s.coming) × (length s'.plan < length s.plan)
recv_interrupted_by [] s s' n p e = ground (arith, e, p)
recv_interrupted_by (zero ∷ plan) s s' n p e = ground (arith, e, p)
recv_interrupted_by (suc k ∷ plan) s s' n p e = ground (arith, e, p)

pub recv_failed_by :
    (plan : List ℕ) (s s' : Planned) (n : ℕ)
    → recv_by plan s n ≡ (recv_failed, s')
    → s'.coming ≡ s.coming
recv_failed_by [] s s' n e = ground (arith, e)
recv_failed_by (zero ∷ plan) s s' n e = ground (arith, e)
recv_failed_by (suc k ∷ plan) s s' n e = ground (arith, e)

abbrev pub planned : Connection Planned
planned = record {
  send = λ s bytes. send_by s.plan s bytes;
  recv = λ s n. recv_by s.plan s n;
  delivered = λ s. s.out;
  incoming = λ s. s.coming;
  patience = λ s. length s.plan;
  send_sent = λ s s' bytes n e. sent_by s.plan s s' bytes n refl e;
  send_int = λ s s' bytes e. interrupted_by s.plan s s' bytes refl e;
  send_fail = λ s s' bytes e. failed_by s.plan s s' bytes e;
  recv_received = λ s s' n bytes e. received_by s.plan s s' n bytes refl e;
  recv_int = λ s s' n e. recv_interrupted_by s.plan s s' n refl e;
  recv_fail = λ s s' n e. recv_failed_by s.plan s s' n e;
}

-- Two bytes, an interruption, then the rest.
abbrev at_start : Planned
at_start = record { out = []; coming = 7 ∷ 8 ∷ 9 ∷ 10 ∷ []; plan = 2 ∷ 0 ∷ [] }

send_all_ends_example :
    let bytes : List ℕ = 1 ∷ 2 ∷ 3 ∷ [] in
    ((ok : Bool) × (s' t : Planned) × (m k : ℕ) × (send_all planned at_start bytes ≡ some (ok, s'))
      × Sending planned bytes at_start t m k
      × Stops planned at_start bytes t m ok s'
      × (s'.out ≡ [] ++ take m bytes)
      × (m ≤ 3))
    × ((fuel : ℕ)
        → Answers planned at_start bytes (send_loop planned fuel at_start bytes 0)
          ⊎ ((t : Planned) × (m k : ℕ) × (send_loop planned fuel at_start bytes 0 ≡ none)
              × Sending planned bytes at_start t m k
              × (fuel ≤ 3 + k)))
send_all_ends_example = send_all_ends planned at_start (1 ∷ 2 ∷ 3 ∷ [])

-- Both end well.
connection_runs :
    (send_all planned at_start (1 ∷ 2 ∷ 3 ∷ [])
      ≡ some (true, record at_start { out = 1 ∷ 2 ∷ 3 ∷ []; plan = [] }))
    × (recv_all planned at_start 3
        ≡ some (true, 7 ∷ 8 ∷ 9 ∷ [], record at_start { coming = 10 ∷ []; plan = [] }))
unfolding send_all send_loop recv_all recv_loop
connection_runs = (refl, refl)
