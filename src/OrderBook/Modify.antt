-- ===== src/OrderBook/Modify.antt =====
-- The `int32_t` arithmetic of `handle_modify`.
use latency_lab.Base.{ℕ, ◌+◌, ◌-◌, ◌%◌, ◌^◌, ◌≤◌, ◌<◌, ◌≡◌, none, some, arith}
use latency_lab.Base.Int.{u32_mod}
use latency_lab.OrderBook.{modify_total}

-- Where it is defined the result is the true total, modulo 2 ^ 32.
pub modify_total_sound :
    (total new old t : ℕ)
    → old ≤ total
    → new < u32_mod
    → old < u32_mod
    → modify_total (total % u32_mod) new old ≡ some t
    → t ≡ (total + new - old) % u32_mod
unfolding modify_total
modify_total_sound total new old t h a b e = ground arith

-- It is defined where the quantities and the totals are below 2 ^ 31.
pub modify_total_defined :
    (total new old : ℕ)
    → old ≤ total
    → total < 2 ^ 31
    → total + new - old < 2 ^ 31
    → modify_total total new old ≡ some (total + new - old)
unfolding modify_total
modify_total_defined total new old h a b = ground arith

-- A new quantity from 2 ^ 31 on, and less than 2 ^ 31 above the old one, overflows.
pub modify_total_overflow :
    (total new old : ℕ)
    → 2 ^ 31 ≤ new
    → new < u32_mod
    → new < old + 2 ^ 31
    → old < 2 ^ 31
    → modify_total total new old ≡ none
unfolding modify_total
modify_total_overflow total new old h k a b = ground arith
