-- ===== src/ObjectPool.antt =====
-- include/latency_lab/object_pool.hpp. A pointer into the storage is the index of its slot, and
-- `nullptr` is `none`. A slot holds an object, or raw memory (`none`). The head of the list
-- `free_list` is the back of the vector.
pub mod Valid
pub mod Slots
pub mod Counts
use latency_lab.Base.{
  ℕ, zero, suc, ◌+◌, ◌-◌, ◌%◌, ◌^◌, Bool, true, false, List, [], ◌∷◌, Option, none, some, ◌>>=◌,
  length, get_or, set, replicate,
}

abbrev pub u64_mod : ℕ
u64_mod = 2 ^ 64

pub record ObjectPool (T : Type 0) : Type 0 where
  pub storage : List (Option T)
  pub free_list : List ℕ
  pub in_use : List Bool
  pub allocations : ℕ
  pub deallocations : ℕ

-- The constructor's loop, from `index` down to 1.
unfoldable pub push_indices : ℕ → List ℕ → List ℕ
push_indices zero free_list = free_list
push_indices (suc index) free_list = push_indices index (index ∷ free_list)

-- The destructor's loop: the slots whose objects it destroys, from `index` on.
unfoldable pub destroyed : ℕ → List Bool → List ℕ
destroyed index [] = []
destroyed index (true ∷ in_use) = index ∷ destroyed (suc index) in_use
destroyed index (false ∷ in_use) = destroyed (suc index) in_use

module _ {T : Type 0} where
  unfoldable pub new : ℕ → ObjectPool T
  new capacity = record {
    storage = replicate capacity none;
    free_list = push_indices capacity [];
    in_use = replicate capacity false;
    allocations = 0;
    deallocations = 0;
  }

  abbrev allocate_from : List ℕ → ObjectPool T → T → Option ℕ × ObjectPool T
  allocate_from [] pool object = (none, pool)
  allocate_from (index ∷ rest) pool object = (
    some index,
    record pool {
      storage = set pool.storage index (some object);
      free_list = rest;
      in_use = set pool.in_use index true;
      allocations = (pool.allocations + 1) % u64_mod;
    },
  )

  -- `allocate(args...)`, where `object` is `T(args...)`.
  unfoldable pub allocate : ObjectPool T → T → Option ℕ × ObjectPool T
  allocate pool object = allocate_from pool.free_list pool object

  unfoldable pub deallocate : ObjectPool T → Option ℕ → ObjectPool T
  deallocate pool none = pool
  deallocate pool (some index) = record pool {
    storage = set pool.storage index none;
    free_list = index ∷ pool.free_list;
    in_use = set pool.in_use index false;
    deallocations = (pool.deallocations + 1) % u64_mod;
  }

  -- The object behind a pointer: `none` if the slot holds none, or there is no such slot.
  unfoldable pub load : ObjectPool T → ℕ → Option T
  load pool index = get_or pool.storage index none

  -- A write through a pointer.
  unfoldable pub store : ObjectPool T → ℕ → T → ObjectPool T
  store pool index object = record pool { storage = set pool.storage index (some object) }

  unfoldable pub capacity : ObjectPool T → ℕ
  capacity pool = length pool.storage

  unfoldable pub available : ObjectPool T → ℕ
  available pool = length pool.free_list

  -- `in_use()`, a difference of `size_t`s.
  unfoldable pub in_use_count : ObjectPool T → ℕ
  in_use_count pool = (length pool.storage + u64_mod - length pool.free_list) % u64_mod
