-- ===== src/Metrics/Sorting.antt =====
-- The smallest and the greatest sample.
use latency_lab.Base.{
  ℕ, suc, ◌≤◌, ◌<◌, ◌≡◌, refl, ◌∙◌, ap, subst, leb, ◌==◌, if◌then◌else◌, Bool-cases, inl, inr, List,
  [], ◌∷◌, length, All, arith,
}
use latency_lab.Metrics.{LatencyRecorder, insert, sort, front, back, min_sample, max_sample}

-- How often a number occurs.
unfoldable pub occurrences : ℕ → List ℕ → ℕ
occurrences x [] = 0
occurrences x (y ∷ ys) = if x == y then suc (occurrences x ys) else occurrences x ys

abbrev pub IsAscending : List ℕ → Type 0
IsAscending [] = Unit {0}
IsAscending (x ∷ xs) = All (λ y. x ≤ y) xs × IsAscending xs

All-le_trans : (x y : ℕ) (ys : List ℕ) → x ≤ y → All (λ z. y ≤ z) ys → All (λ z. x ≤ z) ys
All-le_trans x y [] h a = tt
All-le_trans x y (z ∷ ys) h a = (omega arith, All-le_trans x y ys h a.1)

insert-All : (x w : ℕ) (ys : List ℕ) → w ≤ x → All (λ z. w ≤ z) ys → All (λ z. w ≤ z) (insert x ys)
unfolding insert
insert-All x w [] h a = (h, tt)
insert-All x w (y ∷ ys) h a = ground (arith, insert-All x w ys h a.1)

insert-IsAscending : (x : ℕ) (ys : List ℕ) → IsAscending ys → IsAscending (insert x ys)
unfolding insert
insert-IsAscending x [] v = (tt, tt)
insert-IsAscending x (y ∷ ys) v = elim (Bool-cases (leb x y)) [
  | inl le ↦ rw le ((ground (arith, le), All-le_trans x y ys (ground (arith, le)) v.0), v)
  | inr gt ↦ rw gt (insert-All x y ys (ground (arith, gt)) v.0, insert-IsAscending x ys v.1)
]

pub sort-IsAscending : (xs : List ℕ) → IsAscending (sort xs)
unfolding sort
sort-IsAscending [] = tt
sort-IsAscending (x ∷ xs) = insert-IsAscending x (sort xs) (sort-IsAscending xs)

occurrences-insert :
    (w x : ℕ) (ys : List ℕ)
    → occurrences w (insert x ys) ≡ (if w == x then suc (occurrences w ys) else occurrences w ys)
unfolding occurrences insert
occurrences-insert w x [] = refl
occurrences-insert w x (y ∷ ys) = ground (arith, occurrences-insert w x ys)

pub occurrences-sort : (w : ℕ) (xs : List ℕ) → occurrences w (sort xs) ≡ occurrences w xs
unfolding occurrences sort
occurrences-sort w [] = refl
occurrences-sort w (x ∷ xs) =
    ground (arith, occurrences-insert w x (sort xs), occurrences-sort w xs)

length-insert : (x : ℕ) (ys : List ℕ) → length (insert x ys) ≡ suc (length ys)
unfolding insert
length-insert x [] = refl
length-insert x (y ∷ ys) = ground (arith, length-insert x ys)

pub length-sort : (xs : List ℕ) → length (sort xs) ≡ length xs
unfolding sort
length-sort [] = refl
length-sort (x ∷ xs) = length-insert x (sort xs) ∙ ap suc (length-sort xs)

-- A number that occurs is between the two ends of an ascending list.
front-le : (w : ℕ) (xs : List ℕ) → IsAscending xs → 0 < occurrences w xs → front xs ≤ w
unfolding occurrences
front-le w [] v h = absurd (omega arith)
front-le w (x ∷ xs) v h = ground (arith, later w x xs v.0)
  where
    later : (w x : ℕ) (ys : List ℕ) → All (λ z. x ≤ z) ys → 0 < occurrences w ys → x ≤ w
    later w x [] a h = absurd (unfold occurrences in omega arith)
    later w x (y ∷ ys) a h = unfold occurrences in ground (arith, later w x ys a.1)

back-le : (w : ℕ) (xs : List ℕ) → IsAscending xs → 0 < occurrences w xs → w ≤ back xs
unfolding occurrences
back-le w [] v h = absurd (omega arith)
back-le w (x ∷ []) v h = ground arith
back-le w (x ∷ y ∷ xs) v h = ground (arith, back-le w (y ∷ xs) v.1, back-le y (y ∷ xs) v.1)

front_occurs : (xs : List ℕ) → 0 < length xs → 0 < occurrences (front xs) xs
unfolding occurrences
front_occurs [] h = absurd (omega arith)
front_occurs (x ∷ xs) h = ground arith

back_occurs : (xs : List ℕ) → 0 < length xs → 0 < occurrences (back xs) xs
unfolding occurrences
back_occurs [] h = absurd (omega arith)
back_occurs (x ∷ []) h = ground arith
back_occurs (x ∷ y ∷ xs) h = ground (arith, back_occurs (y ∷ xs))

-- Where there are samples, min and max are samples, and every sample lies between them.
pub min_sample-max_sample :
    (r : LatencyRecorder) (w : ℕ)
    → 0 < length r.samples
    → 0 < occurrences w r.samples
    → (0 < occurrences (min_sample r) r.samples)
      × (0 < occurrences (max_sample r) r.samples)
      × (min_sample r ≤ w)
      × (w ≤ max_sample r)
unfolding min_sample max_sample
min_sample-max_sample r w h k =
    let sorted = sort r.samples in
    let some_sorted : 0 < length sorted = omega (arith, length-sort r.samples) in
    let there : 0 < occurrences w sorted = omega (arith, occurrences-sort w r.samples) in
    (
      subst (λ n. 0 < n) (occurrences-sort (front sorted) r.samples)
          (front_occurs sorted some_sorted),
      subst (λ n. 0 < n) (occurrences-sort (back sorted) r.samples)
          (back_occurs sorted some_sorted),
      front-le w sorted (sort-IsAscending r.samples) there,
      back-le w sorted (sort-IsAscending r.samples) there,
    )
