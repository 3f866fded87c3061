-- ===== src/FalseSharing.antt =====
-- apps/benchmark_false_sharing.cpp: two threads that count, each its own counter, and where the counters
-- stand in memory. An access to a counter is a step; the CPUs are read from outside.
pub mod Totals
use latency_lab.Base.{
  ℕ, zero, suc, ◌+◌, ◌-◌, ◌*◌, ◌/◌, ◌%◌, ◌^◌, ◌==◌, ltb, if◌then◌else◌, Bool, true, false, List, [],
  ◌∷◌,
}
use latency_lab.Base.Int.{ℤ}
use latency_lab.ThreadUtils.{count, CpuTrack, track_start, track}

-- The values of the two counters, which `UnpaddedCounters` and `PaddedCounters` both hold.
pub record Counters : Type 0 where
  pub first : ℕ
  pub second : ℕ

-- Which of the two threads, and so which accessor.
pub data Thread : Type 0 where
  first_thread second_thread : Thread

abbrev pub load : Thread → Counters → ℕ
load first_thread c = c.first
load second_thread c = c.second

abbrev pub fetch_add : Thread → Counters → Counters
fetch_add first_thread c = record c { first = count c.first }
fetch_add second_thread c = record c { second = count c.second }

-- The variables of one thread.
pub record Loop : Type 0 where
  pub iteration : ℕ
  pub cpu : CpuTrack

pub record Case : Type 0 where
  pub counters : Counters
  pub first_loop : Loop
  pub second_loop : Loop

-- A round of a thread behind its access: the CPU is looked at where the last twelve bits of
-- `iteration` are 0.
unfoldable pub round : Loop → ℤ → Loop
round l current_cpu = record {
  iteration = count l.iteration;
  cpu = if l.iteration % 4096 == 0 then track l.cpu current_cpu else l.cpu;
}

-- A thread makes one round, or is behind its loop.
unfoldable pub advance : ℕ → Thread → ℤ → Case → Case
advance iterations first_thread current_cpu c =
    if ltb c.first_loop.iteration iterations
    then record c {
      counters = fetch_add first_thread c.counters;
      first_loop = round c.first_loop current_cpu;
    }
    else c
advance iterations second_thread current_cpu c =
    if ltb c.second_loop.iteration iterations
    then record c {
      counters = fetch_add second_thread c.counters;
      second_loop = round c.second_loop current_cpu;
    }
    else c

unfoldable pub run : ℕ → Case → List (Thread × ℤ) → Case
run iterations c [] = c
run iterations c ((t, cpu) ∷ es) = run iterations (advance iterations t cpu c) es

-- The counters at 0, and the CPUs on which the threads start.
unfoldable pub initial : ℤ → ℤ → Case
initial first_cpu second_cpu = record {
  counters = record { first = 0; second = 0 };
  first_loop = record { iteration = 0; cpu = track_start first_cpu };
  second_loop = record { iteration = 0; cpu = track_start second_cpu };
}

-- Where a counter stands, from the start of the struct, and the alignment of the struct: an atomic takes
-- 8 bytes, and `PaddedCounter` is as long as its alignment.
abbrev pub atomic_size : ℕ
atomic_size = 8

abbrev pub unpadded_offset : Thread → ℕ
unpadded_offset first_thread = 0
unpadded_offset second_thread = atomic_size

abbrev pub padded_counter_align : ℕ
padded_counter_align = 64

-- `value`, then `padding`.
abbrev pub padded_counter_size : ℕ
padded_counter_size = atomic_size + (64 - atomic_size)

abbrev pub padded_offset : Thread → ℕ
padded_offset first_thread = 0
padded_offset second_thread = padded_counter_size

-- The cache line of the byte at an address.
abbrev pub cache_line : ℕ → ℕ
cache_line address = address / 64
