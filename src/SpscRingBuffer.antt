-- ===== src/SpscRingBuffer.antt =====
-- include/latency_lab/spsc_ring_buffer.hpp: a ring of `capacity + 1` slots, one of them always free.
-- `push` and `pop` here run to their end; `SpscRingBuffer.Threads` takes them apart at their accesses
-- to the two indices and the buffer.
pub mod Window
pub mod Queue
pub mod Calls
pub mod Threads
pub mod Inv
pub mod Steps
pub mod Safety
use latency_lab.Base.{
  ℕ, ◌+◌, ◌-◌, ◌%◌, ◌^◌, ◌==◌, Bool, true, false, if◌then◌else◌, List, get_or, set, replicate,
}

abbrev pub size_mod : ℕ
size_mod = 2 ^ 64

-- `slots` is the member `capacity_`.
pub record Ring (T : Type 0) : Type 0 where
  pub slots : ℕ
  pub buffer : List T
  pub head : ℕ
  pub tail : ℕ

-- `increment`, on a ring of `slots`: `++value` is a `size_t`.
unfoldable pub increment : ℕ → ℕ → ℕ
increment slots value = let next = (value + 1) % size_mod in if next == slots then 0 else next

module _ {T : Type 0} where
  -- `SpscRingBuffer(capacity)`; `blank` is the value of `T()`. The sum is a `size_t`.
  unfoldable pub new : ℕ → T → Ring T
  new capacity blank =
      let slots = (capacity + 1) % size_mod in
      record { slots = slots; buffer = replicate slots blank; head = 0; tail = 0 }

  unfoldable pub push : Ring T → T → Bool × Ring T
  push r item =
      let next_head = increment r.slots r.head in
      if next_head == r.tail
      then (false, r)
      else (true, record r { buffer = set r.buffer r.head item; head = next_head })

  -- `pop(T& item)`: the middle part is what `item` holds afterwards.
  unfoldable pub pop : Ring T → T → Bool × T × Ring T
  pop r item =
      if r.tail == r.head
      then (false, item, r)
      else (true, get_or r.buffer r.tail item, record r { tail = increment r.slots r.tail })

  -- `empty`
  unfoldable pub is_empty : Ring T → Bool
  is_empty r = r.head == r.tail

  unfoldable pub capacity : Ring T → ℕ
  capacity r = (r.slots + size_mod - 1) % size_mod
