-- ===== src/ThreadUtils/Migrations.antt =====
-- What a thread's counter of migrations counts.
use latency_lab.Base.{ℕ, suc, ◌+◌, ◌%◌, ◌^◌, ◌≤◌, ◌≡◌, if◌then◌else◌, List, [], ◌∷◌, length, arith}
use latency_lab.Base.Int.{ℤ}
use latency_lab.ThreadUtils.{CpuTrack, has_moved, track_start, track, track_all}

-- How often two readings in a row are of two known CPUs that differ.
unfoldable pub changes : ℤ → List ℤ → ℕ
changes last [] = 0
changes last (cpu ∷ cpus) =
    let rest = changes cpu cpus in if has_moved last cpu then suc rest else rest

unfoldable pub last_of : ℤ → List ℤ → ℤ
last_of cpu [] = cpu
last_of cpu (next ∷ cpus) = last_of next cpus

track_all-changes :
    (t : CpuTrack) (cpus : List ℤ)
    → (track_all t cpus).migrations % 2 ^ 64 ≡ (t.migrations + changes t.last_cpu cpus) % 2 ^ 64
unfolding track_all track changes
track_all-changes t [] = omega arith
track_all-changes t (cpu ∷ cpus) = ground (arith, track_all-changes (track t cpu) cpus)

-- The counter of migrations stays a 64-bit word.
track_all-bound :
    (t : CpuTrack) (cpus : List ℤ)
    → suc t.migrations ≤ 2 ^ 64
    → suc (track_all t cpus).migrations ≤ 2 ^ 64
unfolding track_all track
track_all-bound t [] h = h
track_all-bound t (cpu ∷ cpus) h = track_all-bound (track t cpu) cpus (ground (arith, h))

changes-length : (last : ℤ) (cpus : List ℤ) → changes last cpus ≤ length cpus
unfolding changes
changes-length last [] = omega arith
changes-length last (cpu ∷ cpus) = ground (arith, changes-length cpu cpus)

-- A thread that starts on one CPU and reads the others in turn ends with the last of them, and has
-- counted, modulo 2^64, how often two readings in a row were of two known CPUs that differ, which is at
-- most once for each reading.
pub migrations_lem :
    (start : ℤ) (cpus : List ℤ)
    → ((track_all (track_start start) cpus).migrations ≡ changes start cpus % 2 ^ 64)
      × (changes start cpus ≤ length cpus)
migrations_lem start cpus = (
  omega (
    arith,
    track_all-changes (track_start start) cpus,
    track_all-bound (track_start start) cpus (omega arith),
  ),
  changes-length start cpus,
)
