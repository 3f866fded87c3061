-- ===== src/ObjectPool/Valid.antt =====
-- The invariant of the pool: a slot is in the free list, once, or in use and holds an object.
use latency_lab.Base.{
  ℕ, zero, suc, ◌+◌, ◌%◌, ◌<◌, ◌≡◌, refl, sym, ◌∙◌, Bool, true, false, not, ◌==◌, ltb, ◌||◌,
  if◌then◌else◌, List, [], ◌∷◌, Option, none, some, arith, length, get_or, replicate,
  length-replicate,
}
use latency_lab.ObjectPool.{ObjectPool, u64_mod, new, push_indices, load}

-- Does the free list hold the slot?
unfoldable pub holds : ℕ → List ℕ → Bool
holds i [] = false
holds i (j ∷ js) = if j == i then true else holds i js

abbrev pub IsOnce : List ℕ → Type 0
IsOnce [] = Unit {0}
IsOnce (j ∷ js) = (holds j js ≡ false) × IsOnce js

module _ {T : Type 0} where
  abbrev pub holds_object : Option T → Bool
  holds_object none = false
  holds_object (some object) = true

unfoldable pub count_true : List Bool → ℕ
count_true [] = 0
count_true (true ∷ bs) = suc (count_true bs)
count_true (false ∷ bs) = count_true bs

pub record IsValid {T : Type 0} (pool : ObjectPool T) : Type 0 where
  pub sizes : length pool.in_use ≡ length pool.storage
  pub once : IsOnce pool.free_list
  -- outside the storage nothing is free, and nothing is an object
  pub free : (i : ℕ) → holds i pool.free_list ≡ not (get_or pool.in_use i true)
  pub objects : (i : ℕ) → holds_object (load pool i) ≡ get_or pool.in_use i false
  pub balance : count_true pool.in_use + length pool.free_list ≡ length pool.storage
  pub counters :
      (pool.deallocations + count_true pool.in_use) % u64_mod ≡ pool.allocations % u64_mod

module _ {T : Type 0} (a d : T) where
  get_or-replicate : (n i : ℕ) → get_or (replicate n a) i d ≡ (if ltb i n then a else d)
  get_or-replicate zero i = ground arith
  get_or-replicate (suc n) zero = ground arith
  get_or-replicate (suc n) (suc i) = ground (arith, get_or-replicate n i)

count_true-replicate : (n : ℕ) → count_true (replicate n false) ≡ 0
unfolding count_true
count_true-replicate zero = refl
count_true-replicate (suc n) = count_true-replicate n

holds-push_indices : (i n : ℕ) (js : List ℕ) → holds i (push_indices n js) ≡ (ltb i n || holds i js)
unfolding holds push_indices
holds-push_indices i zero js = ground arith
holds-push_indices i (suc n) js = ground (arith, holds-push_indices i n (n ∷ js))

push_indices-IsOnce :
    (n : ℕ) (js : List ℕ)
    → IsOnce js
    → ((j : ℕ) → j < n → holds j js ≡ false)
    → IsOnce (push_indices n js)
unfolding holds push_indices
push_indices-IsOnce zero js o h = o
push_indices-IsOnce (suc n) js o h =
    push_indices-IsOnce n (n ∷ js) (h n (omega arith), o) (λ j k. ground (arith, h j))

pub length-push_indices : (n : ℕ) (js : List ℕ) → length (push_indices n js) ≡ n + length js
unfolding push_indices
length-push_indices zero js = omega arith
length-push_indices (suc n) js = omega (arith, length-push_indices n (n ∷ js))

-- A new pool is valid, and all its slots are free.
pub new-IsValid : (T : Type 0) (n : ℕ) → IsValid {T = T} (new n)
unfolding new load holds
new-IsValid T n = record {
  sizes = length-replicate n false ∙ sym (length-replicate {A = Option T} n none);
  once = push_indices-IsOnce n [] tt (λ j h. refl);
  free = λ i. ground (arith, holds-push_indices i n [], get_or-replicate false true n i);
  objects = λ i.
      ground
        (arith, get_or-replicate {T = Option T} none none n i, get_or-replicate false false n i);
  balance = omega (
    arith,
    count_true-replicate n,
    length-push_indices n [],
    length-replicate {A = Option T} n none,
  );
  counters = omega (arith, count_true-replicate n);
}
