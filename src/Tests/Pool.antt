-- ===== src/Tests/Pool.antt =====
-- The pool's theorems on a pool of three slots.
use latency_lab.Base.{ℕ, ◌≡◌, refl, ◌⊎◌, ◌==◌, suc, if◌then◌else◌, true, false, some, none, [], ◌∷◌}
use latency_lab.ObjectPool.{
  ObjectPool, new, push_indices, allocate, deallocate, load, available, destroyed,
}
use latency_lab.ObjectPool.Valid.{IsValid, IsOnce, holds, holds_object, new-IsValid}
use latency_lab.ObjectPool.Slots.{allocate-IsValid, allocate_lem, deallocate_lem}
use latency_lab.ObjectPool.Counts.{destroyed_lem}

-- One object, in slot 0.
abbrev pool : ObjectPool ℕ
pool = (allocate (new 3) 7).1

pool-IsValid : IsValid pool
pool-IsValid = allocate-IsValid (new 3) 7 (new-IsValid ℕ 3)

pool_runs : pool ≡ record {
  storage = some 7 ∷ none ∷ none ∷ [];
  free_list = 1 ∷ 2 ∷ [];
  in_use = true ∷ false ∷ false ∷ [];
  allocations = 1;
  deallocations = 0;
}
unfolding allocate new push_indices
pool_runs = refl

allocate_lem_example :
    ((available pool ≡ 0) × (allocate pool 8 ≡ (none, pool)))
    ⊎ ((i : ℕ) × ((allocate pool 8).0 ≡ some i)
        × (load pool i ≡ none)
        × ((j : ℕ) → load (allocate pool 8).1 j ≡ (if i == j then some 8 else load pool j))
        × (available pool ≡ suc (available (allocate pool 8).1)))
allocate_lem_example = allocate_lem pool 8 pool-IsValid

deallocate_lem_example :
    let pool' = deallocate pool (some 0) in
    ((j : ℕ) → load pool' j ≡ (if 0 == j then none else load pool j))
    × (available pool' ≡ suc (available pool))
    × ((allocate pool' 9).0 ≡ some 0)
unfolding allocate new push_indices
deallocate_lem_example = deallocate_lem pool 0 9 pool-IsValid refl

destroyed_lem_example :
    ((i : ℕ) → holds i (destroyed 0 pool.in_use) ≡ holds_object (load pool i))
    × IsOnce (destroyed 0 pool.in_use)
destroyed_lem_example = destroyed_lem pool pool-IsValid
