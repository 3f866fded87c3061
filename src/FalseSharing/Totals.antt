-- ===== src/FalseSharing/Totals.antt =====
-- What the counters show when both threads are done, and on which cache lines they stand.
use latency_lab.Base.{
  ℕ, suc, min, ◌+◌, ◌*◌, ◌%◌, ◌^◌, ◌<◌, ◌≤◌, ◌≡◌, ◌≢◌, refl, ap, ltb, Bool-cases, ◌==◌, inl, inr,
  ◌↔◌, List, [], ◌∷◌, arith,
}
use latency_lab.Base.Int.{ℤ}
use latency_lab.ThreadUtils.{count, has_moved, track}
use latency_lab.FalseSharing.{
  Thread, first_thread, second_thread, Loop, Case, round, advance, run, initial, unpadded_offset,
  padded_offset, padded_counter_align, cache_line,
}

-- A thread has counted once for each of its rounds, and has made no round too many; it has looked at the
-- CPU no more often than it has begun 4096 rounds.
abbrev LoopSound : ℕ → ℕ → Loop → Type 0
LoopSound iterations counter l =
    (counter ≡ l.iteration)
    × (l.iteration ≤ iterations)
    × (l.cpu.migrations * 4096 ≤ l.iteration + 4095)

abbrev IsSound : ℕ → Case → Type 0
IsSound iterations c =
    LoopSound iterations c.counters.first c.first_loop
    × LoopSound iterations c.counters.second c.second_loop

round-LoopSound :
    (iterations counter : ℕ) (l : Loop) (cpu : ℤ)
    → iterations < 2 ^ 64
    → l.iteration < iterations
    → LoopSound iterations counter l
    → LoopSound iterations (count counter) (round l cpu)
unfolding round track
round-LoopSound iterations counter l cpu h more v = elim (Bool-cases (l.iteration % 4096 == 0)) [
  | inl look ↦
      let one_more : count l.cpu.migrations ≤ l.cpu.migrations + 1 = omega arith in
      rw (look, round)
        (
          ap count v.0,
          omega (arith, more),
          elim (Bool-cases (has_moved l.cpu.last_cpu cpu)) [
            | inl moved ↦ rw moved (ground (arith, v.2, look, one_more, h, more))
            | inr stayed ↦ rw stayed (ground (arith, v.2, h, more))
          ],
        )
  | inr skip ↦ rw (skip, round) (ap count v.0, omega (arith, more), omega (arith, v.2, h, more))
]

advance-IsSound :
    (iterations : ℕ) (t : Thread) (cpu : ℤ) (c : Case)
    → iterations < 2 ^ 64
    → IsSound iterations c
    → IsSound iterations (advance iterations t cpu c)
unfolding advance
advance-IsSound iterations first_thread cpu c h v =
    elim (Bool-cases (ltb c.first_loop.iteration iterations)) [
      | inl more ↦
          rw (more, advance)
            (
              round-LoopSound iterations c.counters.first c.first_loop cpu h (ground (arith, more))
                  v.0,
              v.1,
            )
      | inr done ↦ rw (done, advance) v
    ]
advance-IsSound iterations second_thread cpu c h v =
    elim (Bool-cases (ltb c.second_loop.iteration iterations)) [
      | inl more ↦
          rw (more, advance)
            (
              v.0,
              round-LoopSound iterations c.counters.second c.second_loop cpu h
                  (ground (arith, more)) v.1,
            )
      | inr done ↦ rw (done, advance) v
    ]

run-IsSound :
    (iterations : ℕ) (c : Case) (es : List (Thread × ℤ))
    → iterations < 2 ^ 64
    → IsSound iterations c
    → IsSound iterations (run iterations c es)
unfolding run
run-IsSound iterations c [] h v = v
run-IsSound iterations c ((t, cpu) ∷ es) h v =
    run-IsSound iterations (advance iterations t cpu c) es h
      (advance-IsSound iterations t cpu c h v)

abbrev pub after : ℕ → ℤ → ℤ → List (Thread × ℤ) → Case
after iterations first_cpu second_cpu es = run iterations (initial first_cpu second_cpu) es

-- How often a thread steps in a schedule.
abbrev pub steps_of : Thread → List (Thread × ℤ) → ℕ
steps_of t [] = 0
steps_of first_thread ((first_thread, cpu) ∷ es) = suc (steps_of first_thread es)
steps_of first_thread ((second_thread, cpu) ∷ es) = steps_of first_thread es
steps_of second_thread ((first_thread, cpu) ∷ es) = steps_of second_thread es
steps_of second_thread ((second_thread, cpu) ∷ es) = suc (steps_of second_thread es)

abbrev loop_of : Thread → Case → Loop
loop_of first_thread c = c.first_loop
loop_of second_thread c = c.second_loop

-- A step of its own brings a thread one round further, one of the other not.
advance_loop :
    (iterations : ℕ) (t s : Thread) (cpu : ℤ) (c : Case) (n : ℕ)
    → iterations < 2 ^ 64
    → (loop_of t (advance iterations s cpu c)).iteration + steps_of t [] ≡ n
    → min iterations (n + steps_of t [])
      ≡ min iterations ((loop_of t c).iteration + steps_of t ((s, cpu) ∷ []))
unfolding advance round
advance_loop iterations first_thread first_thread cpu c n h e = ground (arith, e, h)
advance_loop iterations first_thread second_thread cpu c n h e = ground (arith, e, h)
advance_loop iterations second_thread first_thread cpu c n h e = ground (arith, e, h)
advance_loop iterations second_thread second_thread cpu c n h e = ground (arith, e, h)

steps_of-cons :
    (t s : Thread) (cpu : ℤ) (es : List (Thread × ℤ))
    → steps_of t ((s, cpu) ∷ es) ≡ steps_of t ((s, cpu) ∷ []) + steps_of t es
steps_of-cons first_thread first_thread cpu es = omega arith
steps_of-cons first_thread second_thread cpu es = omega arith
steps_of-cons second_thread first_thread cpu es = omega arith
steps_of-cons second_thread second_thread cpu es = omega arith

run_loop :
    (iterations : ℕ) (t : Thread) (c : Case) (es : List (Thread × ℤ))
    → iterations < 2 ^ 64
    → min iterations (loop_of t (run iterations c es)).iteration
      ≡ min iterations ((loop_of t c).iteration + steps_of t es)
unfolding run
run_loop iterations t c [] h = omega arith
run_loop iterations t c ((s, cpu) ∷ es) h =
    let c' = advance iterations s cpu c in
    omega (
      arith,
      run_loop iterations t c' es h,
      advance_loop iterations t s cpu c (loop_of t c').iteration h (omega arith),
      steps_of-cons t s cpu es,
    )

-- For fewer than 2^64 iterations and after any schedule of the two threads, each counter shows the
-- number of steps of its own thread, up to the iterations: no increment is lost, and the counter
-- shows all iterations as soon as its thread has had a step for each. A thread has counted no more
-- migrations than it has looked at its CPU, once in 4096 rounds from the first on.
pub counters_lem :
    (iterations : ℕ) (first_cpu second_cpu : ℤ) (es : List (Thread × ℤ))
    → iterations < 2 ^ 64
    → let c = after iterations first_cpu second_cpu es in
      (c.counters.first ≡ min iterations (steps_of first_thread es))
      × (c.counters.second ≡ min iterations (steps_of second_thread es))
      × (c.first_loop.cpu.migrations * 4096 ≤ c.counters.first + 4095)
      × (c.second_loop.cpu.migrations * 4096 ≤ c.counters.second + 4095)
unfolding initial
counters_lem iterations first_cpu second_cpu es h =
    let start = initial first_cpu second_cpu in
    let (v, w) =
      run-IsSound iterations start es h
        ((refl, omega arith, omega arith), (refl, omega arith, omega arith)) in
    (
      omega (arith, v.0, v.1, run_loop iterations first_thread start es h),
      omega (arith, w.0, w.1, run_loop iterations second_thread start es h),
      omega (arith, v.2, v.0),
      omega (arith, w.2, w.0),
    )

-- The counters of PaddedCounters never share a cache line of 64 bytes, those of UnpaddedCounters share one
-- exactly where the struct starts no later than 48 bytes into a line; for the struct that is
-- aligned to its alignment of 8.
pub cache_lines :
    (base padded_base : ℕ)
    → base % 8 ≡ 0
    → padded_base % padded_counter_align ≡ 0
    → ((cache_line (base + unpadded_offset first_thread)
          ≡ cache_line (base + unpadded_offset second_thread))
        ↔ (base % 64 ≤ 48))
      × (cache_line (padded_base + padded_offset first_thread)
          ≢ cache_line (padded_base + padded_offset second_thread))
cache_lines base padded_base a b =
    (((λ h. omega (arith, h, a)), (λ h. omega (arith, h, a))), (λ h. omega (arith, h, b)))
