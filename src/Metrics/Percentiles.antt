-- ===== src/Metrics/Percentiles.antt =====
-- `percentile` stays inside the vector, and its ends are `min` and `max`.
use latency_lab.Base.{
  ℕ, suc, ◌-◌, ◌^◌, ◌<◌, ◌≡◌, refl, ◌∙◌, ap, ◌==◌, if◌then◌else◌, Bool-cases, inl, inr, List, [],
  ◌∷◌, length, get_elem?, get_elem?-eq-get_or, some, arith,
}
use latency_lab.Metrics.{
  Doubles, LatencyRecorder, sort, front, back, min_sample, max_sample, Duration, percentile,
  percentile_of, mean, format_duration, statistics, print_summary, summarize,
}
use latency_lab.Metrics.Sorting.{length-sort}

get_back : (x : ℕ) (xs : List ℕ) → get_elem? (x ∷ xs) (length xs) ≡ some (back (x ∷ xs))
get_back x [] = refl
get_back x (y ∷ xs) = get_back y xs

if_same {ℓ} : {A : Type ℓ} (i : ℕ) (a b : A) → (if i == i then a else b) ≡ a
if_same i a b = ground arith

less_one : (n : ℕ) → suc n - 1 ≡ n
less_one n = omega arith

module _ {D : Type 0} (d : Doubles D) where
  -- The vector is read below its end if `p` is at most 100.
  pub percentile_defined :
      (sorted : List ℕ) (p : D)
      → length sorted < 2 ^ 53
      → d.AtMost p (d.of_u64 100)
      → (v : ℕ) × (percentile d sorted p ≡ some v)
  unfolding percentile
  percentile_defined [] p h le = (0, refl)
  percentile_defined (x ∷ xs) p h le =
      let index = d.mul (d.div p (d.of_u64 100)) (d.of_u64 (suc (length xs) - 1)) in
      let at_most : d.AtMost index (d.of_u64 (suc (length xs) - 1)) =
        d.mul_le (d.div p (d.of_u64 100)) (suc (length xs) - 1) (omega arith)
          (d.div_le p 100 (omega arith) (omega arith) le) in
      let lower_in : d.floor index < suc (length xs) =
        omega (arith, d.floor_le index (suc (length xs) - 1) (omega arith) at_most) in
      let upper_in : d.ceil index < suc (length xs) =
        omega (arith, d.ceil_le index (suc (length xs) - 1) (omega arith) at_most) in
      let lower = get_elem?-eq-get_or (x ∷ xs) (d.floor index) 0 lower_in in
      let upper = get_elem?-eq-get_or (x ∷ xs) (d.ceil index) 0 upper_in in
      elim (Bool-cases (d.floor index == d.ceil index)) [
        | inl same ↦ rw (same, lower) (_, refl)
        | inr between ↦ rw (between, lower, upper) (_, refl)
      ]

  -- A whole index reads one element.
  percentile_at :
      (x : ℕ) (xs : List ℕ) (p : D) (i : ℕ)
      → i < 2 ^ 53
      → d.mul (d.div p (d.of_u64 100)) (d.of_u64 (suc (length xs) - 1)) ≡ d.of_u64 i
      → percentile d (x ∷ xs) p ≡ get_elem? (x ∷ xs) i
  unfolding percentile
  percentile_at x xs p i h e =
      rw (e, d.floor_of i h, d.ceil_of i h) (if_same i (get_elem? (x ∷ xs) i) _)

  percentile_least :
      (x : ℕ) (xs : List ℕ) → length (x ∷ xs) < 2 ^ 53 → percentile d (x ∷ xs) (d.of_u64 0) ≡ some x
  percentile_least x xs h = percentile_at x xs (d.of_u64 0) 0 (omega arith) (
      ap (λ q. d.mul q (d.of_u64 (suc (length xs) - 1)))
        (d.div_zero 100 (omega arith) (omega arith))
      ∙ d.mul_zero (suc (length xs) - 1) (omega arith))

  percentile_greatest :
      (x : ℕ) (xs : List ℕ)
      → length (x ∷ xs) < 2 ^ 53
      → percentile d (x ∷ xs) (d.of_u64 100) ≡ some (back (x ∷ xs))
  percentile_greatest x xs h =
      percentile_at x xs (d.of_u64 100) (suc (length xs) - 1) (omega arith) (
        ap (λ q. d.mul q (d.of_u64 (suc (length xs) - 1)))
          (d.div_self 100 (omega arith) (omega arith))
        ∙ d.mul_one (suc (length xs) - 1) (omega arith))
      ∙ ap (get_elem? (x ∷ xs)) (less_one (length xs))
      ∙ get_back x xs

  -- The same on any vector, by the names of its ends.
  percentile_ends :
      (sorted : List ℕ)
      → length sorted < 2 ^ 53
      → (percentile d sorted (d.of_u64 0) ≡ some (front sorted))
        × (percentile d sorted (d.of_u64 100) ≡ some (back sorted))
  percentile_ends [] h = unfold percentile in (refl, refl)
  percentile_ends (x ∷ xs) h = (percentile_least x xs h, percentile_greatest x xs h)

  -- For fewer than 2^53 samples, and by the laws of IEEE 754 that the interface names, the 0th
  -- percentile is min and the 100th is max, and both are read inside the vector.
  pub percentile_of_ends :
      (r : LatencyRecorder)
      → length r.samples < 2 ^ 53
      → (percentile_of d r (d.of_u64 0) ≡ some (min_sample r))
        × (percentile_of d r (d.of_u64 100) ≡ some (max_sample r))
  unfolding percentile_of min_sample max_sample
  percentile_of_ends r h = percentile_ends (sort r.samples) (omega (arith, length-sort r.samples))

  summarize_ends :
      (p : D) (n : ℕ) (sorted : List ℕ) (average : D)
      → length sorted < 2 ^ 53
      → d.AtMost (d.of_u64 50) (d.of_u64 100)
      → d.AtMost (d.of_u64 90) (d.of_u64 100)
      → d.AtMost (d.of_u64 99) (d.of_u64 100)
      → d.AtMost p (d.of_u64 100)
      → (p50 p90 p99 p99_9 : Duration D) × (summarize d p n sorted average
          ≡ some (
              statistics n
                (format_duration d (front sorted))
                p50
                p90
                p99
                p99_9
                (format_duration d (back sorted))
                (format_duration d (d.to_u64 average))))
  summarize_ends p n sorted average h a b c e =
      let (least, greatest) = percentile_ends sorted h in
      let (x, e₁) = percentile_defined sorted (d.of_u64 50) h a in
      let (y, e₂) = percentile_defined sorted (d.of_u64 90) h b in
      let (z, e₃) = percentile_defined sorted (d.of_u64 99) h c in
      let (w, e₄) = percentile_defined sorted p h e in
      rw (least, greatest, e₁, e₂, e₃, e₄) (_, _, _, _, refl)

  -- For at least one and fewer than 2^53 samples, and where the percentages asked for are at most
  -- 100, print_summary reads inside its vector, and prints the number of samples, min, max and the
  -- mean.
  pub print_summary_ends :
      (p : D) (samples : List ℕ)
      → 0 < length samples
      → length samples < 2 ^ 53
      → d.AtMost (d.of_u64 50) (d.of_u64 100)
      → d.AtMost (d.of_u64 90) (d.of_u64 100)
      → d.AtMost (d.of_u64 99) (d.of_u64 100)
      → d.AtMost p (d.of_u64 100)
      → (p50 p90 p99 p99_9 : Duration D) × (print_summary d p (record { samples = samples })
          ≡ some (
              statistics
                (length samples)
                (format_duration d (min_sample (record { samples = samples })))
                p50
                p90
                p99
                p99_9
                (format_duration d (max_sample (record { samples = samples })))
                (format_duration d (d.to_u64 (mean d (record { samples = samples }))))))
  unfolding print_summary min_sample max_sample
  print_summary_ends p [] some_samples h a b c e = absurd (omega arith)
  print_summary_ends p (x ∷ xs) some_samples h a b c e =
      summarize_ends p (length (x ∷ xs)) (sort (x ∷ xs)) (mean d (record { samples = x ∷ xs }))
        (omega (arith, length-sort (x ∷ xs))) a b c e
