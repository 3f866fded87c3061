-- ===== src/Metrics.antt =====
-- include/latency_lab/metrics.hpp and src/metrics.cpp. The arithmetic of `double` is a parameter.
pub mod Sorting
pub mod Percentiles
use latency_lab.Base.{
  ℕ, suc, ◌+◌, ◌-◌, ◌%◌, ◌^◌, ◌≤◌, ◌<◌, ◌≡◌, ltb, leb, ◌==◌, if◌then◌else◌, Bool, true, false, List,
  [], ◌∷◌, ◌++◌, length, get_elem?, Option, none, some, ◌>>=◌,
}

-- The operations of `double` that the file uses: conversions, arithmetic, `std::floor` and
-- `std::ceil`, each followed by the conversion to `size_t`. The laws are those of IEEE 754 on numbers
-- that `double` holds exactly, and that rounding keeps the order.
pub record Doubles (D : Type 0) : Type 1 where
  pub of_u64 : ℕ → D
  pub to_u64 : D → ℕ
  pub floor : D → ℕ
  pub ceil : D → ℕ
  pub add : D → D → D
  pub sub : D → D → D
  pub mul : D → D → D
  pub div : D → D → D
  pub AtMost : D → D → Type 0
  pub floor_of : (m : ℕ) → m < 2 ^ 53 → floor (of_u64 m) ≡ m
  pub ceil_of : (m : ℕ) → m < 2 ^ 53 → ceil (of_u64 m) ≡ m
  pub div_zero : (m : ℕ) → 0 < m → m < 2 ^ 53 → div (of_u64 0) (of_u64 m) ≡ of_u64 0
  pub div_self : (m : ℕ) → 0 < m → m < 2 ^ 53 → div (of_u64 m) (of_u64 m) ≡ of_u64 1
  pub mul_zero : (m : ℕ) → m < 2 ^ 53 → mul (of_u64 0) (of_u64 m) ≡ of_u64 0
  pub mul_one : (m : ℕ) → m < 2 ^ 53 → mul (of_u64 1) (of_u64 m) ≡ of_u64 m
  pub div_le :
      (x : D) (m : ℕ)
      → 0 < m
      → m < 2 ^ 53
      → AtMost x (of_u64 m)
      → AtMost (div x (of_u64 m)) (of_u64 1)
  pub mul_le :
      (x : D) (m : ℕ) → m < 2 ^ 53 → AtMost x (of_u64 1) → AtMost (mul x (of_u64 m)) (of_u64 m)
  pub floor_le : (x : D) (m : ℕ) → m < 2 ^ 53 → AtMost x (of_u64 m) → floor x ≤ m
  pub ceil_le : (x : D) (m : ℕ) → m < 2 ^ 53 → AtMost x (of_u64 m) → ceil x ≤ m

-- The samples of a `LatencyRecorder`, the latest at the end.
pub record LatencyRecorder : Type 0 where
  pub samples : List ℕ

unfoldable pub new : LatencyRecorder
new = record { samples = [] }

unfoldable pub record_sample : LatencyRecorder → ℕ → LatencyRecorder
record_sample r latency_ns = record { samples = r.samples ++ latency_ns ∷ [] }

unfoldable pub count : LatencyRecorder → ℕ
count r = length r.samples

unfoldable pub clear : LatencyRecorder → LatencyRecorder
clear r = record { samples = [] }

-- `std::sort`
unfoldable pub insert : ℕ → List ℕ → List ℕ
insert x [] = x ∷ []
insert x (y ∷ ys) = if leb x y then x ∷ y ∷ ys else y ∷ insert x ys

unfoldable pub sort : List ℕ → List ℕ
sort [] = []
sort (x ∷ xs) = insert x (sort xs)

-- `front()` and `back()` of a vector, 0 where it is empty.
abbrev pub front : List ℕ → ℕ
front [] = 0
front (x ∷ xs) = x

abbrev pub back : List ℕ → ℕ
back [] = 0
back (x ∷ []) = x
back (x ∷ y ∷ xs) = back (y ∷ xs)

-- `min` and `max` sort a copy, and return 0 where there are no samples.
unfoldable pub min_sample : LatencyRecorder → ℕ
min_sample r = front (sort r.samples)

unfoldable pub max_sample : LatencyRecorder → ℕ
max_sample r = back (sort r.samples)

-- `std::accumulate` from `0ULL`.
unfoldable pub accumulate : ℕ → List ℕ → ℕ
accumulate sum [] = sum
accumulate sum (x ∷ xs) = accumulate ((sum + x) % 2 ^ 64) xs

pub data Duration (D : Type 0) : Type 0 where
  ns : ℕ → Duration D
  us ms : D → Duration D

module _ {D : Type 0} (d : Doubles D) where
  -- `percentile`: `none` is an access past the end of the vector.
  unfoldable pub percentile : List ℕ → D → Option ℕ
  percentile [] p = some 0
  percentile (x ∷ xs) p =
      let sorted = x ∷ xs in
      let index = d.mul (d.div p (d.of_u64 100)) (d.of_u64 (length sorted - 1)) in
      let lower = d.floor index in
      let upper = d.ceil index in
      if lower == upper then get_elem? sorted lower else (do
        a ← get_elem? sorted lower
        b ← get_elem? sorted upper
        let fraction = d.sub index (d.of_u64 lower)
        some (
            d.to_u64 (
              d.add (d.mul (d.of_u64 a) (d.sub (d.of_u64 1) fraction))
                (d.mul (d.of_u64 b) fraction))))

  -- `p50`, `p90`, `p99` and `p99_9`, for their `p`.
  unfoldable pub percentile_of : LatencyRecorder → D → Option ℕ
  percentile_of r p = percentile (sort r.samples) p

  unfoldable pub mean : LatencyRecorder → D
  mean r = elim r.samples [
    | [] ↦ d.of_u64 0
    | x ∷ xs ↦ d.div (d.of_u64 (accumulate 0 (x ∷ xs))) (d.of_u64 (length (x ∷ xs)))
  ]

  -- `format_duration`: the number and its unit, before `double` is printed.
  unfoldable pub format_duration : ℕ → Duration D
  format_duration n =
      if ltb n 1000
      then ns n
      else (if ltb n 1000000
          then us (d.div (d.of_u64 n) (d.of_u64 1000))
          else ms (d.div (d.of_u64 n) (d.of_u64 1000000)))

-- What `print_summary` prints.
pub data Summary (D : Type 0) : Type 0 where
  no_samples : Summary D
  statistics : (samples : ℕ) (least p50 p90 p99 p99_9 greatest average : Duration D) → Summary D

-- `p` is the literal `99.9`.
module _ {D : Type 0} (d : Doubles D) (p : D) where
  abbrev summarize : ℕ → List ℕ → D → Option (Summary D)
  summarize samples sorted average = do
    least ← percentile d sorted (d.of_u64 0)
    p50 ← percentile d sorted (d.of_u64 50)
    p90 ← percentile d sorted (d.of_u64 90)
    p99 ← percentile d sorted (d.of_u64 99)
    p99_9 ← percentile d sorted p
    greatest ← percentile d sorted (d.of_u64 100)
    some (
        statistics samples (format_duration d least) (format_duration d p50) (format_duration d p90)
          (format_duration d p99) (format_duration d p99_9) (format_duration d greatest)
          (format_duration d (d.to_u64 average)))

  unfoldable pub print_summary : LatencyRecorder → Option (Summary D)
  print_summary r = elim r.samples [
    | [] ↦ some no_samples
    | x ∷ xs ↦ summarize (length (x ∷ xs)) (sort (x ∷ xs)) (mean d r)
  ]
