-- ===== src/ObjectPool/Counts.antt =====
-- The pool's counters, and its destructor.
use latency_lab.Base.{
  ℕ, suc, ◌+◌, ◌-◌, ◌%◌, ◌<◌, ◌≤◌, ◌≡◌, Bool, true, false, Bool-cases, inl, inr, ap, leb, ◌&&◌,
  if◌then◌else◌, List, [], ◌∷◌, arith, get_or,
}
use latency_lab.ObjectPool.{ObjectPool, u64_mod, load, available, capacity, in_use_count, destroyed}
use latency_lab.ObjectPool.Valid.{IsValid, IsOnce, holds, holds_object, count_true}

module _ {T : Type 0} (pool : ObjectPool T) (v : IsValid pool)
    (small : capacity pool < u64_mod) where
  -- On a valid pool whose capacity is below 2^64, in_use is the number of slots marked as used,
  -- in_use and available sum up to the capacity, and in_use is the difference of allocations and
  -- deallocations modulo 2^64.
  pub in_use_count_lem :
      (in_use_count pool ≡ count_true pool.in_use)
      × (in_use_count pool + available pool ≡ capacity pool)
      × ((pool.deallocations + in_use_count pool) % u64_mod ≡ pool.allocations % u64_mod)
  unfolding in_use_count available capacity
  in_use_count_lem =
      let count = count_eq in
      (count, omega (arith, v.balance), omega (arith, v.balance, v.counters))
    where
      count_eq : in_use_count pool ≡ count_true pool.in_use
      count_eq = omega (arith, v.balance)

get_or-cons :
    (b : Bool) (bs : List Bool) (k i : ℕ)
    → get_or (b ∷ bs) (i - k) false ≡ (if leb i k then b else get_or bs (i - suc k) false)
get_or-cons b bs k i = elim (Bool-cases (leb i k)) [
  | inl le ↦ rw le (ap (λ n. get_or (b ∷ bs) n false) (first (ground arith)))
  | inr gt ↦ rw gt (ap (λ n. get_or (b ∷ bs) n false) (later (ground arith)))
]
  where
    first : i ≤ k → i - k ≡ 0
    first h = omega arith

    later : k < i → i - k ≡ suc (i - suc k)
    later h = omega arith

-- From slot `k` on, the destructor's loop meets the slots that are in use.
holds-destroyed :
    (k i : ℕ) (bs : List Bool) → holds i (destroyed k bs) ≡ (leb k i && get_or bs (i - k) false)
unfolding holds destroyed
holds-destroyed k i [] = ground arith
holds-destroyed k i (true ∷ bs) =
    ground (arith, get_or-cons true bs k i, holds-destroyed (suc k) i bs)
holds-destroyed k i (false ∷ bs) =
    ground (arith, get_or-cons false bs k i, holds-destroyed (suc k) i bs)

destroyed-IsOnce : (k : ℕ) (bs : List Bool) → IsOnce (destroyed k bs)
unfolding destroyed
destroyed-IsOnce k [] = tt
destroyed-IsOnce k (true ∷ bs) =
    (ground (arith, holds-destroyed (suc k) k bs), destroyed-IsOnce (suc k) bs)
destroyed-IsOnce k (false ∷ bs) = destroyed-IsOnce (suc k) bs

-- The destructor of a valid pool destroys the slots that hold an object, each once, and no other.
pub destroyed_lem :
    {T : Type 0} (pool : ObjectPool T)
    → IsValid pool
    → ((i : ℕ) → holds i (destroyed 0 pool.in_use) ≡ holds_object (load pool i))
      × IsOnce (destroyed 0 pool.in_use)
destroyed_lem pool v = (
  λ i. ground (arith, holds-destroyed 0 i pool.in_use, v.objects i),
  destroyed-IsOnce 0 pool.in_use,
)
