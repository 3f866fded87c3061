-- ===== src/ObjectPool/Slots.antt =====
-- What `allocate` and `deallocate` do to the slots of a valid pool.
use latency_lab.Base.{
  ℕ, zero, suc, ◌<◌, ◌≡◌, refl, sym, ◌∙◌, ap, Bool, true, false, ◌==◌, ltb, ◌&&◌, if◌then◌else◌,
  List, [], ◌∷◌, none, some, arith, length, get_or, set, length-set, ◌⊎◌, inl, inr,
}
use latency_lab.ObjectPool.{ObjectPool, allocate, allocate_from, deallocate, load, store, available}
use latency_lab.ObjectPool.Valid.{IsValid, IsOnce, holds, count_true}

pub get_or-set {ℓ} :
    {A : Type ℓ} (xs : List A) (i j : ℕ) (v d : A)
    → get_or (set xs i v) j d ≡ (if (i == j) && ltb i (length xs) then v else get_or xs j d)
get_or-set [] i j v d = ground arith
get_or-set (x ∷ xs) zero zero v d = ground arith
get_or-set (x ∷ xs) zero (suc j) v d = ground arith
get_or-set (x ∷ xs) (suc i) zero v d = ground arith
get_or-set (x ∷ xs) (suc i) (suc j) v d = ground (arith, get_or-set xs i j v d)

count_true-set-true :
    (bs : List Bool) (i : ℕ)
    → get_or bs i true ≡ false
    → count_true (set bs i true) ≡ suc (count_true bs)
unfolding count_true
count_true-set-true [] i h = cc
count_true-set-true (true ∷ bs) zero h = cc
count_true-set-true (false ∷ bs) zero h = refl
count_true-set-true (true ∷ bs) (suc i) h = ap suc (count_true-set-true bs i h)
count_true-set-true (false ∷ bs) (suc i) h = count_true-set-true bs i h

count_true-set-false :
    (bs : List Bool) (i : ℕ)
    → get_or bs i false ≡ true
    → count_true bs ≡ suc (count_true (set bs i false))
unfolding count_true
count_true-set-false [] i h = cc
count_true-set-false (true ∷ bs) zero h = refl
count_true-set-false (false ∷ bs) zero h = cc
count_true-set-false (true ∷ bs) (suc i) h = ap suc (count_true-set-false bs i h)
count_true-set-false (false ∷ bs) (suc i) h = count_true-set-false bs i h

free→lt : (bs : List Bool) (i : ℕ) → get_or bs i true ≡ false → i < length bs
free→lt [] i h = cc
free→lt (b ∷ bs) zero h = omega arith
free→lt (b ∷ bs) (suc i) h = omega (arith, free→lt bs i h)

used→lt : (bs : List Bool) (i : ℕ) → get_or bs i false ≡ true → i < length bs
used→lt [] i h = cc
used→lt (b ∷ bs) zero h = omega arith
used→lt (b ∷ bs) (suc i) h = omega (arith, used→lt bs i h)

-- Within the list the default does not matter.
used_default : (bs : List Bool) (i : ℕ) → get_or bs i false ≡ true → get_or bs i true ≡ true
used_default [] i h = cc
used_default (b ∷ bs) zero h = h
used_default (b ∷ bs) (suc i) h = used_default bs i h

module _ {T : Type 0} where
  -- The slot on top of the free list.
  top_free :
      (pool : ObjectPool T) (index : ℕ) (rest : List ℕ)
      → IsValid pool
      → pool.free_list ≡ index ∷ rest
      → (get_or pool.in_use index true ≡ false) × (holds index rest ≡ false) × IsOnce rest
  unfolding holds
  top_free pool index rest v e = ground (arith, v.once, v.free index)

  allocate_from-IsValid :
      (js : List ℕ) (pool : ObjectPool T) (object : T)
      → pool.free_list ≡ js
      → IsValid pool
      → IsValid (allocate_from js pool object).1
  unfolding load holds
  allocate_from-IsValid [] pool object e v = v
  allocate_from-IsValid (index ∷ rest) pool object e v =
      let (slot_free, other, once) = top_free pool index rest v e in
      let lt = free→lt pool.in_use index slot_free in
      record {
        sizes = ground (
          arith,
          v.sizes,
          length-set pool.in_use index true,
          length-set pool.storage index (some object),
        );
        once = once;
        free =
            λ i. ground (arith, v.free i, e, other, lt, get_or-set pool.in_use index i true true);
        objects = λ i. ground (
          arith,
          v.objects i,
          v.sizes,
          lt,
          get_or-set pool.in_use index i true false,
          get_or-set pool.storage index i (some object) none,
        );
        balance = ground (
          arith,
          v.balance,
          e,
          count_true-set-true pool.in_use index slot_free,
          length-set pool.storage index (some object),
        );
        counters = omega (arith, v.counters, count_true-set-true pool.in_use index slot_free);
      }

  -- allocate keeps a pool valid: a slot is on the free list, once, or marked as used and holds an
  -- object, and the counters balance.
  pub allocate-IsValid :
      (pool : ObjectPool T) (object : T) → IsValid pool → IsValid (allocate pool object).1
  unfolding allocate
  allocate-IsValid pool object v = allocate_from-IsValid pool.free_list pool object refl v

  -- A slot in use.
  abbrev pub IsUsed : ObjectPool T → ℕ → Type 0
  IsUsed pool i = get_or pool.in_use i false ≡ true

  -- deallocate of a slot in use keeps a pool valid.
  pub deallocate-IsValid :
      (pool : ObjectPool T) (i : ℕ)
      → IsValid pool
      → IsUsed pool i
      → IsValid (deallocate pool (some i))
  unfolding deallocate load holds
  deallocate-IsValid pool i v u =
      let lt = used→lt pool.in_use i u in
      record {
        sizes =
            ground (arith, v.sizes, length-set pool.in_use i false, length-set pool.storage i none);
        once = (ground (arith, v.free i, used_default pool.in_use i u), v.once);
        free = λ j. ground (arith, v.free j, lt, get_or-set pool.in_use i j false true);
        objects = λ j. ground (
          arith,
          v.objects j,
          v.sizes,
          lt,
          get_or-set pool.in_use i j false false,
          get_or-set pool.storage i j none none,
        );
        balance = ground (
          arith,
          v.balance,
          count_true-set-false pool.in_use i u,
          length-set pool.storage i none,
        );
        counters = omega (arith, v.counters, count_true-set-false pool.in_use i u);
      }

  allocate_from_cases :
      (js : List ℕ) (pool : ObjectPool T) (object : T)
      → pool.free_list ≡ js
      → IsValid pool
      → ((length js ≡ 0) × (allocate_from js pool object ≡ (none, pool)))
        ⊎ ((i : ℕ) × ((allocate_from js pool object).0 ≡ some i)
            × (load pool i ≡ none)
            × ((j : ℕ)
                → load (allocate_from js pool object).1 j
                  ≡ (if i == j then some object else load pool j))
            × (length js ≡ suc (length (allocate_from js pool object).1.free_list)))
  allocate_from_cases [] pool object e v = inl (refl, refl)
  allocate_from_cases (index ∷ rest) pool object e v =
      let (slot_free, _, _) = top_free pool index rest v e in
      let lt = free→lt pool.in_use index slot_free in
      inr (index, refl, empty_before slot_free, loads lt, refl)
    where
      empty_before : get_or pool.in_use index true ≡ false → load pool index ≡ none
      empty_before f = ground (arith, v.objects index, used_default pool.in_use index)

      loads :
          index < length pool.in_use
          → (j : ℕ)
          → load (allocate_from (index ∷ rest) pool object).1 j
            ≡ (if index == j then some object else load pool j)
      loads lt j =
          unfold load in ground (arith, v.sizes, get_or-set pool.storage index j (some object) none)

  -- On a valid pool, allocate either answers null, with no slot available, and changes nothing, or
  -- it puts the object into a slot that held none, leaves every other slot as it was, and takes one
  -- slot from those available.
  pub allocate_lem :
      (pool : ObjectPool T) (object : T)
      → IsValid pool
      → ((available pool ≡ 0) × (allocate pool object ≡ (none, pool)))
        ⊎ ((i : ℕ) × ((allocate pool object).0 ≡ some i)
            × (load pool i ≡ none)
            × ((j : ℕ)
                → load (allocate pool object).1 j ≡ (if i == j then some object else load pool j))
            × (available pool ≡ suc (available (allocate pool object).1)))
  unfolding allocate available
  allocate_lem pool object v = allocate_from_cases pool.free_list pool object refl v

  -- A slot that holds an object is in use.
  pub object-IsUsed :
      (pool : ObjectPool T) (i : ℕ) {object : T}
      → IsValid pool
      → load pool i ≡ some object
      → IsUsed pool i
  object-IsUsed pool i v e = ground (arith, v.objects i)

  -- On a valid pool, deallocate of a slot in use empties that slot and no other, makes one more
  -- slot available, and the next allocate hands out that slot.
  pub deallocate_lem :
      (pool : ObjectPool T) (i : ℕ) (object : T)
      → IsValid pool
      → IsUsed pool i
      → let pool' = deallocate pool (some i) in
        ((j : ℕ) → load pool' j ≡ (if i == j then none else load pool j))
        × (available pool' ≡ suc (available pool))
        × ((allocate pool' object).0 ≡ some i)
  unfolding deallocate load available allocate
  deallocate_lem pool i object v u =
      let lt = used→lt pool.in_use i u in
      (λ j. ground (arith, v.sizes, get_or-set pool.storage i j none none), refl, refl)

  pub load-store :
      (pool : ObjectPool T) (i j : ℕ) (object : T)
      → IsValid pool
      → IsUsed pool i
      → load (store pool i object) j ≡ (if i == j then some object else load pool j)
  unfolding load store
  load-store pool i j object v u =
      ground
        (arith, v.sizes, used→lt pool.in_use i u, get_or-set pool.storage i j (some object) none)

  pub store-IsValid :
      (pool : ObjectPool T) (i : ℕ) (object : T)
      → IsValid pool
      → IsUsed pool i
      → IsValid (store pool i object)
  unfolding store
  store-IsValid pool i object v u = record {
    sizes = v.sizes ∙ sym (length-set pool.storage i (some object));
    once = v.once;
    free = v.free;
    objects = λ j.
        unfold load in
        ground (
          arith,
          v.objects j,
          v.sizes,
          used→lt pool.in_use i u,
          get_or-set pool.storage i j (some object) none,
        );
    balance = v.balance ∙ sym (length-set pool.storage i (some object));
    counters = v.counters;
  }
