-- ===== src/Tests/Latencies.antt =====
-- The statistics of a few samples. Whole numbers, with the quotient rounded down, stand for `double`.
use latency_lab.Base.{ℕ, zero, suc, ◌+◌, ◌-◌, ◌*◌, ◌/◌, ◌≤◌, ◌≡◌, refl, some, [], ◌∷◌, arith}
use native.Mathlib.Nat.{div-le_of_le-mul, zero-div, div_self, zero-mul, one-mul}
use latency_lab.Metrics.{
  Doubles, LatencyRecorder, sort, insert, min_sample, max_sample, Duration, mean, format_duration,
  statistics, print_summary,
}
use latency_lab.Metrics.Percentiles.{print_summary_ends}

pub div-le-one : (x m : ℕ) → x ≤ m → x / m ≤ 1
div-le-one x m h = div-le_of_le-mul m (omega arith)

pub mul-le_self : (x m : ℕ) → x ≤ 1 → x * m ≤ m
mul-le_self zero m h = omega arith
mul-le_self (suc zero) m h = omega arith
mul-le_self (suc (suc x)) m h = absurd (omega arith)

abbrev pub whole : Doubles ℕ
whole = record {
  of_u64 = λ n. n;
  to_u64 = λ n. n;
  floor = λ n. n;
  ceil = λ n. n;
  add = λ a b. a + b;
  sub = λ a b. a - b;
  mul = λ a b. a * b;
  div = λ a b. a / b;
  AtMost = λ a b. a ≤ b;
  floor_of = λ m h. refl;
  ceil_of = λ m h. refl;
  div_zero = λ m h k. zero-div m;
  div_self = λ m h k. div_self h;
  mul_zero = λ m h. zero-mul m;
  mul_one = λ m h. one-mul m;
  div_le = λ x m h k l. div-le-one x m l;
  mul_le = λ x m h l. mul-le_self x m l;
  floor_le = λ x m h l. l;
  ceil_le = λ x m h l. l;
}

abbrev recorder : LatencyRecorder
recorder = record { samples = 40 ∷ 10 ∷ 30 ∷ 20 ∷ [] }

recorder_runs : (min_sample recorder ≡ 10) × (max_sample recorder ≡ 40)
unfolding min_sample max_sample sort insert
recorder_runs = (refl, refl)

print_summary_ends_example :
    (p50 p90 p99 p99_9 : Duration ℕ) × (print_summary whole 99 recorder
      ≡ some (
          statistics 4
            (format_duration whole (min_sample recorder))
            p50
            p90
            p99
            p99_9
            (format_duration whole (max_sample recorder))
            (format_duration whole (mean whole recorder))))
print_summary_ends_example =
    print_summary_ends whole 99 (40 ∷ 10 ∷ 30 ∷ 20 ∷ []) (omega arith) (omega arith) (omega arith)
      (omega arith) (omega arith) (omega arith)
