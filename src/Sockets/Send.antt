-- ===== src/Sockets/Send.antt =====
-- `send_all`, against the calls of `send` that it makes: it goes on after a short call and after an
-- interruption, and stops at the end of the buffer, at an error, or at a call that sends nothing.
use latency_lab.Base.{
  ℕ, zero, suc, ◌+◌, ◌<◌, ◌≤◌, ◌≡◌, refl, sym, ◌∙◌, ap, Bool, true, false, ltb, Bool-cases, inl,
  inr, ◌⊎◌, List, ◌++◌, Option, none, some, length, take, drop, take-append-take-drop, length-drop,
  take-length, arith,
}
use mathlib.Core.List.{append_assoc, append-nil}
use latency_lab.Sockets.{
  SendResult, sent, send_interrupted, send_failed, Connection, send_loop, send_all,
}

outcome : (r : SendResult) → ((n : ℕ) × (r ≡ sent n)) ⊎ ((r ≡ send_interrupted) ⊎ (r ≡ send_failed))
outcome (sent n) = inl (n, refl)
outcome send_interrupted = inr (inl refl)
outcome send_failed = inr (inr refl)

-- The calls of `send` by which the first `m` bytes of the buffer go out, from the state `s` to the state `t`, with `k`
-- interruptions. Each call offers all that is left.
pub data Sending {S : Type 0} (c : Connection S) (bytes : List ℕ) (s : S)
    : (t : S) (m k : ℕ) → Type 0 where
  start : Sending c bytes s s 0 0
  go_on :
      {t t' : S} {m k : ℕ} (n m' : ℕ)
      → Sending c bytes s t m k
      → m < length bytes
      → c.send t (drop m bytes) ≡ (sent n, t')
      → 0 < n
      → m' ≡ m + n
      → Sending c bytes s t' m' k
  again :
      {t t' : S} {m k : ℕ}
      → Sending c bytes s t m k
      → m < length bytes
      → c.send t (drop m bytes) ≡ (send_interrupted, t')
      → Sending c bytes s t' m (suc k)

module _ {S : Type 0} (c : Connection S) (s : S) (bytes : List ℕ) where
  -- What has been accepted is the front of the buffer, once.
  pub Sending-delivered :
      {t : S} {m k : ℕ}
      → Sending c bytes s t m k
      → (m ≤ length bytes) × (c.delivered t ≡ c.delivered s ++ take m bytes)
  Sending-delivered start = (omega arith, sym (append-nil (c.delivered s)))
  Sending-delivered (go_on {t} {t'} {m} n m' r more e some_bytes grows) =
      let (le, d) = Sending-delivered r in
      let (fits, grown, _) = c.send_sent t t' (drop m bytes) n e in
      (
        omega (arith, le, fits, length-drop m bytes, grows),
        grown
            ∙ ap (λ xs. xs ++ take n (drop m bytes)) d
            ∙ append_assoc (c.delivered s) (take m bytes) (take n (drop m bytes))
            ∙ ap (◌++◌ (c.delivered s))
                (take-append-take-drop m n bytes ∙ ap (λ j. take j bytes) (sym grows)),
      )
  Sending-delivered (again {t} {t'} {m} r more e) =
      let (le, d) = Sending-delivered r in
      let (kept, _) = c.send_int t t' (drop m bytes) e in (le, kept ∙ d)

  -- The calls use up the patience that the connection had.
  Sending-patience : {t : S} {m k : ℕ} → Sending c bytes s t m k → k + c.patience t ≤ c.patience s
  Sending-patience start = omega arith
  Sending-patience (go_on {t} {t'} {m} n m' r more e some_bytes grows) =
      omega (arith, Sending-patience r, (c.send_sent t t' (drop m bytes) n e).2)
  Sending-patience (again {t} {t'} {m} r more e) =
      omega (arith, Sending-patience r, (c.send_int t t' (drop m bytes) e).1)

  -- Why the loop stops at `t` with the first `m` bytes sent, with which answer, and in which state: the whole
  -- buffer is sent; or `send` returns an error that is no interruption; or it returns 0.
  abbrev pub Stops : S → ℕ → Bool → S → Type 0
  Stops t m ok s' =
      ((ok ≡ true) × (m ≡ length bytes) × (s' ≡ t))
      ⊎ (((ok ≡ false) × (m < length bytes) × (c.send t (drop m bytes) ≡ (send_failed, s')))
          ⊎ ((ok ≡ false) × (m < length bytes) × (c.send t (drop m bytes) ≡ (sent 0, s'))))

  -- The loop has answered, after calls of `send` that lead to where it stops.
  abbrev pub Answers : Option (Bool × S) → Type 0
  Answers r =
      (ok : Bool) × (s' t : S) × (m k : ℕ) × (r ≡ some (ok, s'))
      × Sending c bytes s t m k
      × Stops t m ok s'

  -- The loop has used up its fuel, a unit for each call.
  abbrev pub RunsOut : ℕ → Option (Bool × S) → Type 0
  RunsOut calls r = (t : S) × (m k : ℕ) × (r ≡ none) × Sending c bytes s t m k × (calls ≤ m + k)

  fewer :
      (a b : ℕ) (r : Option (Bool × S)) → b ≤ a → Answers r ⊎ RunsOut a r → Answers r ⊎ RunsOut b r
  fewer a b r le (inl answered) = inl answered
  fewer a b r le (inr (t, m, k, e, run, made)) = inr (t, m, k, e, run, omega (arith, le, made))

  send_loop_lem :
      (fuel calls m k : ℕ) (t : S)
      → Sending c bytes s t m k
      → calls ≤ m + k
      → Answers (send_loop c fuel t bytes m) ⊎ RunsOut (calls + fuel) (send_loop c fuel t bytes m)
  unfolding send_loop
  send_loop_lem zero calls m k t r made = inr (t, m, k, refl, r, omega (arith, made))
  send_loop_lem (suc fuel) calls m k t r made = elim (Bool-cases (ltb m (length bytes))) [
    | inr no_more ↦
        let whole : m ≡ length bytes = ground (arith, no_more, (Sending-delivered r).0) in
        rw (no_more, send_loop) (inl (true, t, t, m, k, refl, r, inl (refl, whole, refl)))
    | inl more ↦
        let t' = (c.send t (drop m bytes)).1 in
        let left : m < length bytes = ground (arith, more) in
        elim (outcome (c.send t (drop m bytes)).0) [
          | inl (n, e) ↦ elim (Bool-cases (ltb 0 n)) [
            | inl some_bytes ↦
                let n_pos : 0 < n = ground (arith, some_bytes) in
                rw (more, e, some_bytes, send_loop)
                  (fewer (suc calls + fuel) (calls + suc fuel) (send_loop c fuel t' bytes (m + n))
                    (omega arith)
                    (send_loop_lem fuel (suc calls) (m + n) k t'
                      (go_on n (m + n) r left (ap (λ x. (x, t')) e) n_pos refl)
                      (omega (arith, made, n_pos))))
            | inr nothing ↦
                let zero_bytes : n ≡ 0 = ground (arith, nothing) in
                rw (more, e, nothing, send_loop)
                  (inl (
                    false,
                    t',
                    t,
                    m,
                    k,
                    refl,
                    r,
                    inr (inr (refl, left, ap (λ x. (x, t')) (e ∙ ap sent zero_bytes))),
                  ))
          ]
          | inr (inl e) ↦
              rw (more, e, send_loop)
                (fewer (suc calls + fuel) (calls + suc fuel) (send_loop c fuel t' bytes m)
                  (omega arith)
                  (send_loop_lem fuel (suc calls) m (suc k) t' (again r left (ap (λ x. (x, t')) e))
                    (omega (arith, made))))
          | inr (inr e) ↦
              rw (more, e, send_loop)
                (inl (false, t', t, m, k, refl, r, inr (inl (refl, left, ap (λ x. (x, t')) e))))
        ]
  ]

  stopped-delivered :
      (t s' : S) (m k : ℕ) (ok : Bool)
      → Sending c bytes s t m k
      → Stops t m ok s'
      → c.delivered s' ≡ c.delivered s ++ take m bytes
  stopped-delivered t s' m k ok r (inl (_, _, same)) = ap c.delivered same ∙ (Sending-delivered r).1
  stopped-delivered t s' m k ok r (inr (inl (_, _, e))) =
      c.send_fail t s' (drop m bytes) e ∙ (Sending-delivered r).1
  stopped-delivered t s' m k ok r (inr (inr (_, _, e))) =
      (c.send_sent t s' (drop m bytes) 0 e).1 ∙ append-nil (c.delivered t) ∙ (Sending-delivered r).1

  send_all-Answers : Answers (send_all c s bytes)
  unfolding send_all
  send_all-Answers =
      elim (send_loop_lem (suc (length bytes + c.patience s)) 0 0 0 s start (omega arith)) [
        | inl answered ↦ answered
        | inr (t, m, k, e, r, made) ↦
            absurd (omega (arith, made, (Sending-delivered r).0, Sending-patience r))
      ]

  -- By the laws of Sockets.Connection, send_all ends, after calls of send of which each offers all
  -- that is left of the buffer; the front of the buffer is sent, in order and nothing twice. It
  -- returns true if the whole buffer is sent, and false if bytes are left and the last call
  -- returned an error other than EINTR, or 0. That it ends rests on the bound which these laws set
  -- to the interruptions to come. Whatever they are, where only some number of calls is allowed,
  -- the loop has given such an answer, or it has made that many calls, and all of them were
  -- interrupted but at most one for each byte.
  pub send_all_ends :
      ((ok : Bool) × (s' t : S) × (m k : ℕ) × (send_all c s bytes ≡ some (ok, s'))
        × Sending c bytes s t m k
        × Stops t m ok s'
        × (c.delivered s' ≡ c.delivered s ++ take m bytes)
        × (m ≤ length bytes))
      × ((fuel : ℕ)
          → Answers (send_loop c fuel s bytes 0)
            ⊎ ((t : S) × (m k : ℕ) × (send_loop c fuel s bytes 0 ≡ none)
                × Sending c bytes s t m k
                × (fuel ≤ length bytes + k)))
  send_all_ends =
      let (ok, s', t, m, k, runs, r, stops) = send_all-Answers in
      (
        (
          ok,
          s',
          t,
          m,
          k,
          runs,
          r,
          stops,
          stopped-delivered t s' m k ok r stops,
          (Sending-delivered r).0,
        ),
        (λ fuel. elim (send_loop_lem fuel 0 0 0 s start (omega arith)) [
          | inl answered ↦ inl answered
          | inr (t', m', k', e, r', made) ↦
              inr (t', m', k', e, r', omega (arith, made, (Sending-delivered r').0))
        ]),
      )

  -- Either the answer is false, and a front of the buffer is sent but not the whole, or it is true, and the whole
  -- is sent.
  pub send_all-delivered :
      (ok : Bool) × (s' : S) × (m : ℕ) × (send_all c s bytes ≡ some (ok, s'))
      × (c.delivered s' ≡ c.delivered s ++ take m bytes)
      × (m ≤ length bytes)
      × (((ok ≡ false) × (m < length bytes))
          ⊎ ((ok ≡ true) × (c.delivered s' ≡ c.delivered s ++ bytes)))
  send_all-delivered =
      let (ok, s', t, m, k, runs, r, stops, d, le) = send_all_ends.0 in
      (
        ok,
        s',
        m,
        runs,
        d,
        le,
        elim stops [
          | inl (answer, whole, _) ↦ inr (
            answer,
            d ∙ ap (◌++◌ (c.delivered s)) (ap (λ j. take j bytes) whole ∙ take-length bytes),
          )
          | inr (inl (answer, part, _)) ↦ inl (answer, part)
          | inr (inr (answer, part, _)) ↦ inl (answer, part)
        ],
      )
