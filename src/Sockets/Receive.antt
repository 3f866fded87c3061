-- ===== src/Sockets/Receive.antt =====
-- `recv_all` ends, and what it has put into the buffer is the front of what was to come, as many bytes
-- as it was asked for where it returns `true`.
use latency_lab.Base.{
  ℕ, zero, suc, ◌+◌, ◌-◌, ◌<◌, ◌≤◌, ◌≡◌, refl, sym, ◌∙◌, ap, Bool, true, false, ltb, Bool-cases,
  inl, inr, ◌⊎◌, List, [], ◌∷◌, ◌++◌, Option, some, length, length-append, arith,
}
use mathlib.Core.List.{append_assoc}
use latency_lab.Sockets.{
  RecvResult, received, recv_interrupted, recv_failed, Connection, recv_loop, recv_all,
}

outcome :
    (r : RecvResult)
    → ((xs : List ℕ) × (r ≡ received xs)) ⊎ ((r ≡ recv_interrupted) ⊎ (r ≡ recv_failed))
outcome (received xs) = inl (xs, refl)
outcome recv_interrupted = inr (inl refl)
outcome recv_failed = inr (inr refl)

module _ {S : Type 0} (c : Connection S) (bytes : ℕ) (stream : List ℕ) where
  -- The loop has ended, with the front of the stream in the buffer.
  abbrev EndsRecv : Option (Bool × List ℕ × S) → Type 0
  EndsRecv r =
      (ok : Bool) × (buffer : List ℕ) × (s' : S) × (r ≡ some (ok, buffer, s'))
      × (stream ≡ buffer ++ c.incoming s')
      × (length buffer ≤ bytes)
      × ((ok ≡ false) ⊎ (length buffer ≡ bytes))

  recv_loop_ends :
      (fuel : ℕ) (buffer : List ℕ) (s : S)
      → length buffer ≤ bytes
      → stream ≡ buffer ++ c.incoming s
      → bytes - length buffer + c.patience s < fuel
      → EndsRecv (recv_loop c fuel s bytes buffer)
  unfolding recv_loop
  recv_loop_ends zero buffer s le d h = absurd (omega arith)
  recv_loop_ends (suc fuel) buffer s le d h = elim (Bool-cases (ltb (length buffer) bytes)) [
    | inr no_more ↦
        rw (no_more, recv_loop) (true, buffer, s, refl, d, le, inr (ground (arith, no_more)))
    | inl more ↦
        let s' = (c.recv s (bytes - length buffer)).1 in
        elim (outcome (c.recv s (bytes - length buffer)).0) [
          | inl (xs, e) ↦
              let (fits, taken, calm) =
                c.recv_received s s' (bytes - length buffer) xs (ap (λ r. (r, s')) e) in
              let taken' : stream ≡ (buffer ++ xs) ++ c.incoming s' =
                d ∙ ap (◌++◌ buffer) taken ∙ sym (append_assoc buffer xs (c.incoming s')) in
              let fits' : length (buffer ++ xs) ≤ bytes =
                omega (arith, le, fits, length-append buffer xs) in
              elim (Bool-cases (ltb 0 (length xs))) [
                | inl some_bytes ↦
                    rw (more, e, some_bytes, recv_loop)
                      (recv_loop_ends fuel (buffer ++ xs) s' fits' taken'
                        (ground (arith, some_bytes, length-append buffer xs)))
                | inr nothing ↦
                    rw (more, e, nothing, recv_loop)
                      (
                        false,
                        buffer,
                        s',
                        refl,
                        d ∙ ap (◌++◌ buffer) (taken ∙ none_taken xs (c.incoming s') nothing),
                        le,
                        inl refl,
                      )
              ]
          | inr (inl e) ↦
              let (kept, calm) = c.recv_int s s' (bytes - length buffer) (ap (λ r. (r, s')) e) in
              rw (more, e, recv_loop)
                (recv_loop_ends fuel buffer s' le (d ∙ ap (◌++◌ buffer) (sym kept)) (omega arith))
          | inr (inr e) ↦
              let kept = c.recv_fail s s' (bytes - length buffer) (ap (λ r. (r, s')) e) in
              rw (more, e, recv_loop)
                (false, buffer, s', refl, d ∙ ap (◌++◌ buffer) (sym kept), le, inl refl)
        ]
  ]
    where
      none_taken : (xs ys : List ℕ) → ltb 0 (length xs) ≡ false → xs ++ ys ≡ ys
      none_taken [] ys h = refl
      none_taken (x ∷ xs) ys h = absurd (ground arith)

-- On a connection that follows the laws of Sockets.Connection, which bound the interruptions to
-- come, recv_all ends; the buffer holds the front of what was to come, no more than asked for, and
-- either it returns false or the buffer holds as many bytes as asked for.
pub recv_all_ends :
    {S : Type 0} (c : Connection S) (s : S) (bytes : ℕ)
    → (ok : Bool) × (buffer : List ℕ) × (s' : S) × (recv_all c s bytes ≡ some (ok, buffer, s'))
      × (c.incoming s ≡ buffer ++ c.incoming s')
      × (length buffer ≤ bytes)
      × ((ok ≡ false) ⊎ (length buffer ≡ bytes))
unfolding recv_all
recv_all_ends c s bytes =
    recv_loop_ends c bytes (c.incoming s) (suc (bytes + c.patience s)) [] s (omega arith) refl
      (omega arith)
