-- ===== src/ThreadUtils.antt =====
-- src/thread_utils.cpp, and how every thread of the programs under apps follows the CPU it runs on. The
-- system calls `pthread_setaffinity_np` and `sched_getcpu` are parameters.
pub mod Migrations
use latency_lab.Base.{ℕ, ◌+◌, ◌%◌, ◌^◌, Bool, true, false, not, ◌&&◌, if◌then◌else◌, List, [], ◌∷◌}
use latency_lab.Base.Int.{ℤ, pos, negsuc, ltb_ℤ, eqb_ℤ}

-- `fetch_add(1)` on a `std::atomic<std::uint64_t>`
abbrev pub count : ℕ → ℕ
count n = (n + 1) % 2 ^ 64

-- `pin_thread_to_cpu` on Linux; `set_affinity cpu` says whether the system call returned 0.
unfoldable pub pin_thread_to_cpu : (ℤ → Bool) → ℤ → Bool
pin_thread_to_cpu set_affinity cpu_id = if ltb_ℤ cpu_id (pos 0) then false else set_affinity cpu_id

-- What the start of a thread prints of its pinning: nothing where no CPU was asked for.
unfoldable pub pin_result : (ℤ → Bool) → ℤ → List Bool
pin_result set_affinity cpu =
    if ltb_ℤ cpu (pos 0) then [] else pin_thread_to_cpu set_affinity cpu ∷ []

-- `last_cpu` of a thread, and its counter of migrations.
pub record CpuTrack : Type 0 where
  pub last_cpu : ℤ
  pub migrations : ℕ

-- `last_cpu >= 0 && current_cpu >= 0 && current_cpu != last_cpu`
abbrev pub has_moved : ℤ → ℤ → Bool
has_moved last_cpu current_cpu =
    not (ltb_ℤ last_cpu (pos 0))
    && not (ltb_ℤ current_cpu (pos 0))
    && not (eqb_ℤ current_cpu last_cpu)

abbrev pub track_start : ℤ → CpuTrack
track_start cpu = record { last_cpu = cpu; migrations = 0 }

-- One reading of the current CPU.
unfoldable pub track : CpuTrack → ℤ → CpuTrack
track t current_cpu = record {
  last_cpu = current_cpu;
  migrations = if has_moved t.last_cpu current_cpu then count t.migrations else t.migrations;
}

unfoldable pub track_all : CpuTrack → List ℤ → CpuTrack
track_all t [] = t
track_all t (cpu ∷ cpus) = track_all (track t cpu) cpus
